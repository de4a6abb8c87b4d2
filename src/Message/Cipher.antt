-- ===== src/Message/Cipher.antt =====
-- `MaybeEncrypted` of rings-core/src/message/types.rs: what is encrypted for a key is read with it.
use rings_node.Base.{ℕ, Bool, true, false, Option, none, some, List, ◌≡◌, refl, ap, sym, ◌∙◌}
use rings_node.Error.{Result, ok, err, ◌>>=◌, >>=_steps, ok-inj, unexpected_encrypted_data}
use rings_node.Message.{MaybeEncrypted, encrypted, plain, Message, custom_message}

-- bincode and ecies; each call gives the error that `map_err` makes of the library's.
pub record Cipher (K Sk T : Type 0) : Type 0 where
  pub serialize : T → Result (List ℕ)
  pub deserialize : List ℕ → Result T
  pub encrypt : K → List ℕ → Result (List ℕ)
  pub decrypt_bytes : Sk → List ℕ → Result (List ℕ)

-- The secret key `sk` belongs to the public key `k`: what is encrypted for `k` is read back with `sk`, and
-- what is serialized is read back.
pub record IsKeyPair {K Sk T : Type 0} (c : Cipher K Sk T) (k : K) (sk : Sk) : Type 0 where
  pub decrypt-encrypt : (m e : List ℕ) → c.encrypt k m ≡ ok e → c.decrypt_bytes sk e ≡ ok m
  pub deserialize-serialize : (t : T) (m : List ℕ) → c.serialize t ≡ ok m → c.deserialize m ≡ ok t

module _ {K Sk T : Type 0} (c : Cipher K Sk T) where
  -- `MaybeEncrypted::new`
  unfoldable pub new_maybe : T → Option K → Result (MaybeEncrypted T)
  new_maybe content none = ok (plain content)
  new_maybe content (some pubkey) = do
    msg ← c.serialize content
    cipher ← c.encrypt pubkey msg
    ok (encrypted cipher)

  unfoldable pub decrypt : MaybeEncrypted T → Sk → Result (T × Bool)
  decrypt (plain msg) key = ok (msg, false)
  decrypt (encrypted cipher) key = do
    clear ← c.decrypt_bytes key cipher
    msg ← c.deserialize clear
    ok (msg, true)

  unfoldable pub plain_or_error : MaybeEncrypted T → Result T
  plain_or_error (plain msg) = ok msg
  plain_or_error (encrypted _) = err unexpected_encrypted_data

-- `Message::custom`
unfoldable pub custom : {K Sk : Type 0} → Cipher K Sk (List ℕ) → List ℕ → Option K → Result Message
custom c msg pubkey = do m ← new_maybe c msg pubkey; ok (custom_message m)

abbrev is_some {ℓ} : {A : Type ℓ} → Option A → Bool
is_some none = false
is_some (some _) = true

module _ {K Sk T : Type 0} (c : Cipher K Sk T) where
  -- Whatever `new` made of a message, for a key or for none, `decrypt` with the secret key of that key
  -- gives the message back, and says whether it was encrypted.
  decrypt-new_maybe :
      (k : K) (sk : Sk) (content : T) (pubkey : Option K) (m : MaybeEncrypted T)
      → IsKeyPair c k sk
      → ((j : K) → pubkey ≡ some j → j ≡ k)
      → new_maybe c content pubkey ≡ ok m
      → decrypt c m sk ≡ ok (content, is_some pubkey)
  unfolding new_maybe decrypt
  decrypt-new_maybe k sk content none m pair own e = rw⁻¹ (ok-inj e) refl
  decrypt-new_maybe k sk content (some j) m pair own e =
      let (msg, e1, s) = >>=_steps (c.serialize content) _ e in
      let (cipher, e2, f) = >>=_steps (c.encrypt j msg) _ e1 in
      rw⁻¹ (ok-inj e2) (
        rw
          (
            pair.decrypt-encrypt msg cipher (ap (λ x. c.encrypt x msg) (sym (own j refl)) ∙ f),
            pair.deserialize-serialize content msg s,
          )
          refl)
