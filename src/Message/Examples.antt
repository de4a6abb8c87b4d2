-- ===== src/Message/Examples.antt =====
-- An encryption that puts the key in front has the laws that the theorem on encrypted messages assumes.
use rings_node.Base.{ap, sym}
use rings_node.Error.{ok, ok-inj}
use rings_node.Message.Cipher.{IsKeyPair}
use rings_node.Node.Samples.{cipher}

pair : IsKeyPair cipher 4 5
pair = record {
  decrypt-encrypt = λ m e h. ap (λ x. cipher.decrypt_bytes 5 x) (sym (ok-inj h));
  deserialize-serialize = λ t m h. ap ok (sym (ok-inj h));
}
