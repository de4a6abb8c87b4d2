-- ===== src/Relay/Retrace.antt =====
-- `report` and the hops of `relay` after it.
use mathlib.Core.List.{reverse}
use rings_node.Base.{
  ℕ, zero, suc, ◌+◌, ◌-◌, ◌%◌, ◌^◌, ◌<◌, ◌≤◌, ◌≡◌, ◌≢◌, refl, ap, sym, ◌∙◌, false, Option, none,
  some, List, [], ◌∷◌, arith, length, get_elem?, get_elem?-lt, head?, take, drop, ltb, ◌==◌, ==_iff,
  subst, some-inj,
}
use rings_node.Error.{Result, ok, ◌>>=◌}
use rings_node.Did.{Did}
use rings_node.Relay.{
  MessageRelay, method_send, method_report, has_repeat, position, validate, origin, sender,
  path_prev, report_hop, relay, report,
}
use rings_node.Relay.Reverse.{get_elem?-reverse, drop-two, reverse-take-suc}

-- The nodes that `relay` is called on one after the other, each the next hop that the one before
-- found, from the next hop given; for at most so many hops.
abbrev pub travel : ℕ → Option Did → MessageRelay → Result (List Did × MessageRelay)
travel zero o r = ok ([], r)
travel (suc n) none r = ok ([], r)
travel (suc n) (some x) r = do
  r' ← relay r x none
  (xs, r'') ← travel n r'.next_hop r'
  ok (x ∷ xs, r'')

has_repeat-ne :
    (xs : List Did) (i : ℕ) (a b : Did)
    → has_repeat xs ≡ false
    → get_elem? xs i ≡ some a
    → get_elem? xs (suc i) ≡ some b
    → a ≢ b
unfolding has_repeat
has_repeat-ne [] i a b h p q = cc
has_repeat-ne (x ∷ []) zero a b h p q = cc
has_repeat-ne (x ∷ []) (suc i) a b h p q = cc
has_repeat-ne (x ∷ y ∷ xs) zero a b h p q = ground arith
has_repeat-ne (x ∷ y ∷ xs) (suc i) a b h p q = has_repeat-ne (y ∷ xs) i a b (ground arith) p q

position-second : (x y : Did) (xs : List Did) → y ≢ x → position x (y ∷ x ∷ xs) ≡ some 1
unfolding position
position-second x y xs ne = ground arith

-- A report that stands at cursor `c`, before node `x`, which has index `k` in the path.
pub record AtHop (r : MessageRelay) (c k : ℕ) (x : Did) : Type 0 where
  pub reporting : r.method ≡ method_report
  pub valid : validate r ≡ ok tt
  pub plain : has_repeat r.path ≡ false
  pub short : length r.path < 2 ^ 62
  pub cursor : r.path_end_cursor ≡ c
  pub next : r.next_hop ≡ some x
  pub index : c + k + 2 ≡ length r.path
  pub at_index : get_elem? r.path k ≡ some x

module _ (r : MessageRelay) (c k : ℕ) (x : Did) (a : AtHop r c k x) where
  relay-report_hop : relay r x none ≡ report_hop r x none
  unfolding relay
  relay-report_hop =
      let m = a.reporting in let v = a.valid in let n = a.next in ground (arith, m, v, n)

  relay_last :
      x ≡ r.destination
      → relay r x none ≡ ok (record r { path_end_cursor = length r.path - 1; next_hop = none })
  unfolding report_hop
  relay_last e = relay-report_hop ∙ (let n = a.next in ground (arith, n, e))

  found_next : position x (drop r.path_end_cursor (reverse r.path)) ≡ some 1
  found_next =
      let (y, at_y) = get_elem?-lt r.path (suc k) (omega (arith, a.index)) in
      let (rest, e) =
        drop-two (reverse r.path) c y x
          (get_elem?-reverse r.path c (suc k) (omega (arith, a.index)) ∙ at_y)
          (get_elem?-reverse r.path (suc c) k (omega (arith, a.index)) ∙ a.at_index) in
      rw (a.cursor, e)
        (position-second x y rest (λ q. has_repeat-ne r.path k x y a.plain a.at_index at_y (sym q)))

  path_prev-moved :
      (w : Did) (j : ℕ)
      → k ≡ suc j
      → get_elem? r.path j ≡ some w
      → path_prev (record r { path_end_cursor = (r.path_end_cursor + 1) % 2 ^ 64 }) ≡ ok (some w)
  unfolding path_prev
  path_prev-moved w j e g =
      let small = a.short in
      let at_c = a.cursor in
      let ix = a.index in
      let one : (r.path_end_cursor + 1) % 2 ^ 64 ≡ suc c = omega arith in
      let spot : (length r.path + 2 ^ 65 - 2 - suc c) % 2 ^ 64 ≡ j = omega arith in
      let room : ltb (length r.path) ((suc c + 2) % 2 ^ 64) ≡ false = ground arith in
      rw (one, room, spot, g) refl

  -- One hop of the report, to the node before.
  relay_back :
      (w : Did) (j : ℕ)
      → x ≢ r.destination
      → k ≡ suc j
      → get_elem? r.path j ≡ some w
      → relay r x none ≡ ok (record r { path_end_cursor = suc c; next_hop = some w })
  unfolding report_hop path_prev
  relay_back w j ne e g =
      let small = a.short in
      let at_c = a.cursor in
      let ix = a.index in
      let other : (x == r.destination) ≡ false = ground arith in
      let one : (r.path_end_cursor + 1) % 2 ^ 64 ≡ suc c = omega arith in
      relay-report_hop
      ∙ rw (a.next, other, found_next, path_prev-moved w j e g)
          (ap (λ i. ok (record r { path_end_cursor = i; next_hop = some w })) one)

  AtHop-back :
      (w : Did) (j : ℕ)
      → k ≡ suc j
      → get_elem? r.path j ≡ some w
      → AtHop (record r { path_end_cursor = suc c; next_hop = some w }) (suc c) j w
  unfolding validate
  AtHop-back w j e g = record {
    reporting = a.reporting;
    valid = a.valid;
    plain = a.plain;
    short = a.short;
    cursor = refl;
    next = refl;
    index = let ix = a.index in omega arith;
    at_index = g;
  }

travel_step :
    (n : ℕ) (r r' r'' : MessageRelay) (x : Did) (xs : List Did)
    → relay r x none ≡ ok r'
    → travel n r'.next_hop r' ≡ ok (xs, r'')
    → travel (suc n) (some x) r ≡ ok (x ∷ xs, r'')
travel_step n r r' r'' x xs e t = rw (e, t) refl

-- Back at the origin.
abbrev finished : MessageRelay → MessageRelay
finished r = record r { path_end_cursor = length r.path - 1; next_hop = none }

travel-back :
    (k c : ℕ) (r : MessageRelay) (x : Did)
    → AtHop r c k x
    → get_elem? r.path 0 ≡ some r.destination
    → ((j : ℕ) → get_elem? r.path (suc j) ≢ some r.destination)
    → travel (suc k) (some x) r ≡ ok (reverse (take (suc k) r.path), finished r)
travel-back zero c r x a first once =
    travel_step 0 r _ _ x [] (relay_last r c 0 x a (some-inj (sym a.at_index ∙ first))) refl
    ∙ ap (λ xs. ok (xs, finished r)) (sym (reverse-take-suc r.path 0 x a.at_index))
travel-back (suc k) c r x a first once =
    let (w, g) = get_elem?-lt r.path k (let ix = a.index in omega arith) in
    travel_step (suc k) r _ _ x (reverse (take (suc k) r.path))
      (relay_back r c (suc k) x a w k (λ q. once k (a.at_index ∙ ap some q)) refl g)
      (travel-back k (suc c) (record r { path_end_cursor = suc c; next_hop = some w }) w
        (AtHop-back r c (suc k) x a w k refl g) first once)
    ∙ ap (λ xs. ok (xs, finished r)) (sym (reverse-take-suc r.path (suc k) x a.at_index))

abbrev reported : MessageRelay → Did → Did → MessageRelay
reported r d w = record {
  method = method_report;
  path = r.path;
  path_end_cursor = 0;
  next_hop = some w;
  destination = d;
}

head-get_elem? : (xs : List Did) (d : Did) → get_elem? xs 0 ≡ some d → head? xs ≡ some d
head-get_elem? [] d e = cc
head-get_elem? (x ∷ xs) d e = e

validate-plain : (r : MessageRelay) → validate r ≡ ok tt → has_repeat r.path ≡ false
unfolding validate
validate-plain r e = ground arith

validate-reported :
    (r : MessageRelay) (d w : Did)
    → has_repeat r.path ≡ false
    → head? r.path ≡ some d
    → validate (reported r d w) ≡ ok tt
unfolding validate
validate-reported r d w plain h = rw (plain, h, (==_iff d d).1 refl) refl

report-reported :
    (r : MessageRelay) (d w : Did)
    → r.method ≡ method_send
    → r.path_end_cursor ≡ 0
    → 2 ≤ length r.path
    → length r.path < 2 ^ 62
    → head? r.path ≡ some d
    → get_elem? r.path (length r.path - 2) ≡ some w
    → report r ≡ ok (reported r d w)
unfolding report path_prev sender origin
report-reported r d w sending start long short h g =
    let two : ltb (length r.path) 2 ≡ false = ground arith in
    let spot : (length r.path + 2 ^ 65 - 2 - 0) % 2 ^ 64 ≡ length r.path - 2 =
      omega (arith, long, short) in
    rw (sending, two, start, two, spot, g, h) refl

-- A message that went out along `path`, each node pushing itself, and whose path the checks of `relay`
-- pass, is answered: suppose the path has at least two nodes (and is short of 2 ^ 62), and its origin
-- stands only at its head. Then the report made at the last node visits the nodes before it in reverse
-- order, each finding the next by itself, and ends at the origin with no next hop.
pub report_retraces :
    (r : MessageRelay) (d : Did)
    → r.method ≡ method_send
    → validate r ≡ ok tt
    → r.path_end_cursor ≡ 0
    → 2 ≤ length r.path
    → length r.path < 2 ^ 62
    → get_elem? r.path 0 ≡ some d
    → ((j : ℕ) → get_elem? r.path (suc j) ≢ some d)
    → (p : MessageRelay) × (p' : MessageRelay) × (report r ≡ ok p)
      × (travel (length r.path - 1) p.next_hop p
          ≡ ok (reverse (take (length r.path - 1) r.path), p'))
      × (p'.next_hop ≡ none)
report_retraces r d sending valid start long short first once =
    let (w, g) = get_elem?-lt r.path (length r.path - 2) (omega (arith, long)) in
    let p = reported r d w in
    let plain = validate-plain r valid in
    let hop =
      travel-back (length r.path - 2) 0 p w
        (record {
          reporting = refl;
          valid = validate-reported r d w plain (head-get_elem? r.path d first);
          plain = plain;
          short = short;
          cursor = refl;
          next = refl;
          index = omega (arith, long);
          at_index = g;
        })
        first once in
    let steps : suc (length r.path - 2) ≡ length r.path - 1 = omega (arith, long) in
    (
      p,
      finished p,
      report-reported r d w sending start long short (head-get_elem? r.path d first) g,
      subst (λ n. travel n (some w) p ≡ ok (reverse (take n r.path), finished p)) steps hop,
      refl,
    )
