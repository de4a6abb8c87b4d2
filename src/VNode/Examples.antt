-- ===== src/VNode/Examples.antt =====
-- The theorems on virtual nodes at small ones, and a small run.
use rings_node.Base.{◌≡◌, refl, true, [], ◌∷◌, subst, ◌≢◌, if◌then◌else◌}
use rings_node.Error.{ok, err, ok-inj, decode, deserialize}
use text.Mathlib.TextEquality.{eq_iff}
use rings_node.Base.{false≢true}
use rings_node.VNode.{
  Encoded, VirtualNode, joins_subring, data_type, subring, Codec, touch, operate, gen_default_vnode,
  contains, new_subring, vnode_of_subring, gen_did,
}
use rings_node.VNode.SubringJoin.{
  starts_with_brace, PrintsObjects, RejectsBraces, join_subring_fails,
}

-- Every hash is read as 5, every subring prints as an empty object, and a text with a brace is no
-- base58.
abbrev codec : Codec
codec = record {
  hash = λ s. s;
  h160_from_str = λ s. ok 5;
  decode_string = λ s. if starts_with_brace s then err decode else ok s;
  to_json = λ r. ok "{}";
  from_json = λ s. err deserialize;
}

prints : PrintsObjects codec
prints r s e = subst (λ x. starts_with_brace x ≡ true) (ok-inj e) refl

rejects : RejectsBraces codec
rejects s h = rw h refl

abbrev node : VirtualNode
node = record { did = 5; payload = "{}" ∷ []; kind = subring }

stored_subring : gen_default_vnode codec (joins_subring "room" 1) ≡ ok node
unfolding gen_default_vnode new_subring vnode_of_subring gen_did
stored_subring = refl

join_subring_fails_example : operate codec node (joins_subring "room" 2) ≡ err decode
join_subring_fails_example = join_subring_fails codec prints rejects "room" 1 2 node stored_subring

abbrev stored : VirtualNode
stored = record { did = 7; payload = "a" ∷ "b" ∷ []; kind = data_type }

abbrev incoming : VirtualNode
incoming = record { did = 7; payload = "a" ∷ []; kind = data_type }

abbrev touched : VirtualNode
touched = record { did = 7; payload = "b" ∷ "a" ∷ []; kind = data_type }

-- The touched entry moves to the end.
touch_test : touch stored incoming ≡ ok touched
unfolding touch contains
touch_test = refl

a-ne-b : ◌≢◌ {A = Encoded} "a" "b"
a-ne-b e = false≢true ((eq_iff "a" "b").1 e)
