-- ===== src/Catalog/Listing.antt =====
-- src/catalog.rs: what a listing that reads without an error holds.
use market_stream_gateway.Prelude.{
  ◌≡◌, refl, ap, sym, ◌∙◌, List, [], ◌∷◌, Option, none, some, arith, map, Result, ok, ◌>>=◌,
  >>=-eq-ok, text_order, Result-cases, Option-cases, inl, inr, All, subst,
}
use market_stream_gateway.Text.{Text}
use market_stream_gateway.Map.{lookup, Distinct}
use market_stream_gateway.Map.Ordered.{
  insert_ordered, IsAscending, lookup-insert_ordered, insert_ordered-All,
  insert_ordered-IsAscending, ascending_ext,
}
use market_stream_gateway.Catalog.Instrument.{Instrument, CatalogError}
use market_stream_gateway.Catalog.Pages.{
  Instruments, insert_unique, collect_rows, page_rows, insert_all,
}

abbrev pub keyed : Instrument → Text × Instrument
keyed i = (i.symbol, i)

-- What a listing of instruments is: no two of them have the same symbol, and the map holds exactly
-- them, each under its symbol, in the order of the symbols.
abbrev pub Lists : List Instrument → Instruments → Type 0
Lists is m =
    Distinct (map keyed is) × IsAscending m × ((s : Text) → lookup s m ≡ lookup s (map keyed is))

insert_unique-eq-ok :
    (m m' : Instruments) (i : Instrument)
    → insert_unique m i ≡ ok m'
    → (lookup i.symbol m ≡ none) × (m' ≡ insert_ordered i.symbol i m)
unfolding insert_unique
insert_unique-eq-ok m m' i h = elim (Option-cases (lookup i.symbol m)) [
  | inl e ↦ (e, ground (arith, e, h))
  | inr (j, e) ↦ ground (arith, e, h)
]

insert_unique-new :
    (m : Instruments) (i : Instrument)
    → lookup i.symbol m ≡ none
    → insert_unique m i ≡ ok (insert_ordered i.symbol i m)
unfolding insert_unique
insert_unique-new m i h = ground (arith, h)

-- No instrument of the list has its symbol in the map.
abbrev AreNew : Instruments → List Instrument → Type 0
AreNew m = All (λ i. lookup i.symbol m ≡ none)

AreNew-before :
    (i : Instrument) (m : Instruments) (is : List Instrument)
    → lookup i.symbol m ≡ none
    → AreNew (insert_ordered i.symbol i m) is
    → AreNew m is × (lookup i.symbol (map keyed is) ≡ none)
unfolding lookup
AreNew-before i m [] e h = (tt, refl)
AreNew-before i m (j ∷ is) e h = ground (
  arith,
  h.0,
  AreNew-before i m is e h.1,
  lookup-insert_ordered i.symbol j.symbol i m,
  text_order.beq_iff i.symbol j.symbol,
  text_order.beq_iff j.symbol i.symbol,
)

AreNew-after :
    (i : Instrument) (m : Instruments) (is : List Instrument)
    → lookup i.symbol (map keyed is) ≡ none
    → AreNew m is
    → AreNew (insert_ordered i.symbol i m) is
unfolding lookup
AreNew-after i m [] e h = tt
AreNew-after i m (j ∷ is) e h = ground (
  arith,
  h.0,
  e,
  AreNew-after i m is,
  h.1,
  lookup-insert_ordered i.symbol j.symbol i m,
  text_order.beq_iff i.symbol j.symbol,
  text_order.beq_iff j.symbol i.symbol,
)

-- Where insertion one by one succeeds, all symbols are new and differ, and the map holds the new
-- instruments beside the old.
insert_all-eq-ok :
    (is : List Instrument) (m m' : Instruments)
    → IsAscending m
    → insert_all m is ≡ ok m'
    → AreNew m is
      × Distinct (map keyed is)
      × IsAscending m'
      × ((s : Text)
          → lookup s m' ≡ elim (lookup s (map keyed is)) [ none ↦ lookup s m | some i ↦ some i ])
unfolding insert_all lookup
insert_all-eq-ok [] m m' a h =
    let same : m ≡ m' = ground (arith, h) in
    (tt, tt, subst IsAscending same a, λ s. ap (lookup s) (sym same))
insert_all-eq-ok (i ∷ is) m m' a h =
    let first = >>=-eq-ok (insert_unique m i) _ h in
    let new = insert_unique-eq-ok m first.0 i first.1 in
    let next = insert_ordered-IsAscending i.symbol i m a in
    let inserted = ap (λ x. insert_all x is) (sym new.1) ∙ first.2 in
    let (fresh, distinct, ascends, found) =
      insert_all-eq-ok is (insert_ordered i.symbol i m) m' next inserted in
    let before = AreNew-before i m is new.0 fresh in
    (
      (new.0, before.0),
      (before.1, distinct),
      ascends,
      λ s. ground (
        arith,
        found s,
        before.1,
        lookup-insert_ordered i.symbol s i m,
        text_order.beq_iff i.symbol s,
      ),
    )

pub insert_all-Lists :
    (is : List Instrument) (m : Instruments) → insert_all [] is ≡ ok m → Lists is m
unfolding lookup
insert_all-Lists is m h =
    let (fresh, distinct, ascends, found) = insert_all-eq-ok is [] m tt h in
    (distinct, ascends, λ s. ground (arith, found s))

insert_all-succeeds :
    (is : List Instrument) (m : Instruments)
    → Distinct (map keyed is)
    → AreNew m is
    → (m' : Instruments) × (insert_all m is ≡ ok m')
unfolding insert_all
insert_all-succeeds [] m d h = (m, refl)
insert_all-succeeds (i ∷ is) m d h =
    let after = insert_ordered i.symbol i m in
    let rest = insert_all-succeeds is after d.1 (AreNew-after i m is d.0 h.1) in
    (rest.0, ap (λ r. r >>= λ x. insert_all x is) (insert_unique-new m i h.0) ∙ rest.1)

AreNew-empty : (is : List Instrument) → AreNew [] is
unfolding lookup
AreNew-empty [] = tt
AreNew-empty (i ∷ is) = (refl, AreNew-empty is)

-- Insertion one by one gives the map that lists the instruments.
pub Lists-insert_all :
    (is : List Instrument) (m : Instruments) → Lists is m → insert_all [] is ≡ ok m
Lists-insert_all is m (distinct, ascends, found) =
    let (m', h) = insert_all-succeeds is [] distinct (AreNew-empty is) in
    let (d, a, f) = insert_all-Lists is m' h in
    h ∙ ap ok (ascending_ext m' m a ascends (λ s. f s ∙ sym (found s)))

-- What holds of the entries of a map and of the instruments inserted holds of the entries after.
pub insert_all-All :
    (P : Text × Instrument → Type 0) (is : List Instrument) (m m' : Instruments)
    → All P m
    → All (λ i. P (keyed i)) is
    → insert_all m is ≡ ok m'
    → All P m'
unfolding insert_all
insert_all-All P [] m m' h k e = let same : m ≡ m' = ground (arith, e) in subst (All P) same h
insert_all-All P (i ∷ is) m m' h k e =
    let first = >>=-eq-ok (insert_unique m i) _ e in
    let new = insert_unique-eq-ok m first.0 i first.1 in
    insert_all-All P is first.0 m'
      (subst (All P) (sym new.1)
        (insert_ordered-All P i.symbol i m (λ j q. subst (λ x. P (x, i)) (sym q) k.0) h))
      k.1 first.2

module _ {ℓ} {A : Type ℓ} (row : A → Result (Option Instrument) CatalogError) where
  -- The loop over rows is the rows that become instruments, inserted one by one.
  pub collect_rows-insert_all :
      (items : List A) (m m' : Instruments)
      → collect_rows row m items ≡ ok m'
      → (is : List Instrument) × (page_rows row items ≡ ok is) × (insert_all m is ≡ ok m')
  unfolding collect_rows page_rows insert_all
  collect_rows-insert_all [] m m' h = ([], refl, h)
  collect_rows-insert_all (item ∷ items) m m' h = elim (Result-cases (row item)) [
    | inl (e, q) ↦ ground (arith, q, h)
    | inr (none, q) ↦
        (let rest = collect_rows-insert_all items m m' (ground (arith, q, h)) in
          (rest.0, ground (arith, q, rest.1), rest.2))
    | inr (some i, q) ↦ elim (Result-cases (insert_unique m i)) [
      | inl (e, z) ↦ ground (arith, q, z, h)
      | inr (n, z) ↦
          (let rest = collect_rows-insert_all items n m' (ground (arith, q, z, h)) in
            (i ∷ rest.0, ground (arith, q, rest.1), ground (arith, z, rest.2)))
    ]
  ]

  pub collect_rows-succeeds :
      (items : List A) (m m' : Instruments) (is : List Instrument)
      → page_rows row items ≡ ok is
      → insert_all m is ≡ ok m'
      → collect_rows row m items ≡ ok m'
  unfolding collect_rows page_rows insert_all
  collect_rows-succeeds [] m m' is h k = ground (arith, h, k)
  collect_rows-succeeds (item ∷ items) m m' is h k =
      let first = >>=-eq-ok (row item) _ h in
      let others = >>=-eq-ok (page_rows row items) _ first.2 in
      let list : elim first.0 as (λ x. List Instrument) [ none ↦ others.0 | some i ↦ i ∷ others.0 ]
          ≡ is =
        ground (arith, others.2) in
      elim (Option-cases first.0) [
        | inl q ↦
            (let same : others.0 ≡ is = ground (arith, list, q) in
              let rest = collect_rows-succeeds items m m' is (others.1 ∙ ap ok same) k in
              ground (arith, first.1, q, rest))
        | inr (i, q) ↦
            (let same : i ∷ others.0 ≡ is = ground (arith, list, q) in
              let chain = >>=-eq-ok (insert_unique m i) _ (ap (insert_all m) same ∙ k) in
              let rest = collect_rows-succeeds items chain.0 m' others.0 others.1 chain.2 in
              ground (arith, first.1, q, chain.1, rest))
      ]

  pub page_rows-All {κ} :
      (P : Instrument → Type κ)
      → ((item : A) (i : Instrument) → row item ≡ ok (some i) → P i)
      → (items : List A) (is : List Instrument) → page_rows row items ≡ ok is
      → All P is
  unfolding page_rows
  page_rows-All P f [] is h = subst (All P) {x = []} (ground (arith, h)) tt
  page_rows-All P f (item ∷ items) is h =
      let first = >>=-eq-ok (row item) _ h in
      let others = >>=-eq-ok (page_rows row items) _ first.2 in
      let rest = page_rows-All P f items others.0 others.1 in
      elim (Option-cases first.0) [
        | inl q ↦ subst (All P) {x = others.0} (ground (arith, others.2, q)) rest
        | inr (i, q) ↦
            subst (All P) {x = i ∷ others.0} (ground (arith, others.2, q))
              (f item i (first.1 ∙ ap ok q), rest)
      ]
