-- ===== src/VNode/SubringJoin.antt =====
-- Joining a subring: `TryFrom<Subring>` and `TryFrom<VirtualNode>` after one another.
use Prim.Native.Char.{code}
use rings_node.Base.{◌≢◌, ◌≡◌, Bool, true, false, String, arith, ◌==◌}
use rings_node.Error.{Result, ok, err, decode, serialize_to_string, >>=_steps, panic}
use rings_node.Did.{Did}
use rings_node.VNode.{
  VirtualNode, joins_subring, Subring, Codec, vnode_of_subring, new_subring, decode_first,
  subring_of_vnode, join_subring, gen_default_vnode, operate, map_err,
}

abbrev pub starts_with_brace : String → Bool
starts_with_brace String.[] = false
starts_with_brace (String.◌∷◌ ch s) = code ch == b'{'

-- serde_json prints a struct as an object, which starts with a brace.
abbrev pub PrintsObjects : Codec → Type 0
PrintsObjects c = (r : Subring) (s : String) → c.to_json r ≡ ok s → starts_with_brace s ≡ true

-- A brace is no base58 digit.
abbrev pub RejectsBraces : Codec → Type 0
RejectsBraces c = (s : String) → starts_with_brace s ≡ true → c.decode_string s ≡ err decode

map_err-ok {ℓ} : {A : Type ℓ} (r e : Result A) {a : A} → map_err r e ≡ ok a → (e ≢ ok a) → r ≡ ok a
map_err-ok (ok b) e h n = h
map_err-ok (err b) e h n = absurd (n h)
map_err-ok panic e h n = cc

module _ (c : Codec) (prints : PrintsObjects c) (rejects : RejectsBraces c) where
  vnode-unreadable :
      (ring : Subring) (v : VirtualNode) (did : Did)
      → vnode_of_subring c ring ≡ ok v
      → join_subring c v did ≡ err decode
  unfolding vnode_of_subring join_subring subring_of_vnode decode_first
  vnode-unreadable ring v did e =
      let (json, e', p) = >>=_steps (map_err (c.to_json ring) (err serialize_to_string)) _ e in
      let q = rejects json (prints ring json (map_err-ok _ _ p (λ x. cc))) in ground (arith, e', q)

  -- Where JSON objects start with a brace and base58 rejects one, whatever the hash does, a `JoinSubring` on the virtual node that the code makes
  -- for a new subring fails to decode it.
  pub join_subring_fails :
      (name : String) (creator did : Did) (v : VirtualNode)
      → gen_default_vnode c (joins_subring name creator) ≡ ok v
      → operate c v (joins_subring name did) ≡ err decode
  unfolding gen_default_vnode operate
  join_subring_fails name creator did v e =
      let (ring, q, p) = >>=_steps (new_subring c name creator) _ e in vnode-unreadable ring v did q
