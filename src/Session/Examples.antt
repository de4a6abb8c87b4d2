-- ===== src/Session/Examples.antt =====
-- The theorem on sessions at a sample.
use rings_node.Base.{◌≡◌, ◌↔◌, refl, true, false}
use rings_node.Session.{is_expired, signed, verify, delegated_did, pack_msg, verify_message}
use rings_node.Session.Trust.{IsTrusted, verify_message-IsTrusted}
use rings_node.Session.Samples.{signers, verification}

verify_test : verify_message signers 5200 verification 9 ≡ true
unfolding verify_message verify signed is_expired delegated_did pack_msg
verify_test = refl

expired_test : verify_message signers 6001 verification 9 ≡ false
unfolding verify_message verify signed is_expired delegated_did pack_msg
expired_test = refl

verify_message-IsTrusted_example :
    verify_message signers 5200 verification 9 ≡ true ↔ IsTrusted signers 5200 verification 9
verify_message-IsTrusted_example = verify_message-IsTrusted signers 5200 verification 9
