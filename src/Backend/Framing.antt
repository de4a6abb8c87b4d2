-- ===== src/Backend/Framing.antt =====
-- What comes back of a custom message that was sent.
use rings_node.Base.{
  ℕ, ◌+◌, ◌*◌, ◌/◌, ◌%◌, ◌^◌, ◌<◌, ◌≡◌, refl, subst, false, some, List, [], ◌∷◌, ◌++◌, arith,
  length, length-append, drop, ltb,
}
use rings_node.Error.{ok}
use rings_node.Backend.{BackendMessage, of_slice, to_vec, zeros}
use rings_node.Backend.Service.{read_custom}
use rings_node.Processor.Message.{framed}

drop-extra : (xs ys : List ℕ) → drop (length xs) (xs ++ ys) ≡ ys
drop-extra [] ys = refl
drop-extra (x ∷ xs) ys = drop-extra xs ys

-- A message with 30 extra bytes and a type of 16 bits is read from its bytes with the same type and body, but its
-- extra bytes come back as zeros.
pub of_slice-to_vec :
    (m : BackendMessage)
    → length m.extra ≡ 30
    → m.message_type < 2 ^ 16
    → of_slice (to_vec m) ≡ ok (record m { extra = zeros 30 })
unfolding of_slice to_vec
of_slice-to_vec m e h =
    let short : ltb (length (to_vec m)) 32 ≡ false = ground (arith, length-append m.extra m.body) in
    let body : drop 30 (m.extra ++ m.body) ≡ m.body =
      subst (λ n. drop n (m.extra ++ m.body) ≡ m.body) e (drop-extra m.extra m.body) in
    let kind : m.message_type % 256 + 256 * (m.message_type / 256) ≡ m.message_type = omega arith in
    rw (short, body, kind) refl

-- So it is where it travels behind the four bytes that the processor puts in front.
pub read_custom-framed :
    (m : BackendMessage)
    → length m.extra ≡ 30
    → m.message_type < 2 ^ 16
    → read_custom (framed (to_vec m)) ≡ ok (some (record m { extra = zeros 30 }))
unfolding read_custom
read_custom-framed m e h = rw (of_slice-to_vec m e h) (ground arith)
