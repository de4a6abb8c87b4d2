-- ===== src/Session/Samples.antt =====
-- Signatures that hold for one text each, and a session that lives for 1000 ms from time 5000.
use rings_node.Base.{ℕ, Bool, false, none, some, List, [], ◌∷◌, ◌==◌}
use rings_node.Error.{ok}
use rings_node.Did.{Did}
use rings_node.Session.{Session, MessageVerification, Signers, default_signer, some_ms}

-- A signature is a list that begins with the identifier that made it.
abbrev pub by : Did → List ℕ → Bool
by did [] = false
by did (x ∷ xs) = x == did

abbrev pub signers : Signers ℕ ℕ
signers = record {
  print_auth = λ a. some "auth";
  print = λ t. some "text";
  pack = λ s ts ttl. s;
  verify_default = λ s did sig. by did sig;
  verify_eip191 = λ s did sig. by did sig;
  verify_ed25519 = λ s did sig k. by did sig;
  recover_default = λ s sig. ok 1;
  recover_eip191 = λ s sig. ok 1;
}

abbrev pub session : Session ℕ
session = record {
  sig = 1 ∷ [];
  auth = record {
    authorizer = record { did = 1; pubkey = none };
    signer = default_signer;
    ttl_ms = some_ms 1000;
    ts_ms = 5000;
    session_id = 2;
  };
}

abbrev pub verification : MessageVerification ℕ
verification = record { session = session; ttl_ms = 300; ts_ms = 5100; sig = 2 ∷ [] }
