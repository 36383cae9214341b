-- ===== src/PointGraph/Points.antt =====
-- RosaServer/pointgraph.cpp: the entries by point, beside the list of the points.
use rosa_server.Base.{
  ℕ, ◌&&◌, ◌≢◌, zero, suc, ◌≤◌, ◌<◌, ◌≡◌, refl, sym, ap, ◌∙◌, ◌⊎◌, inl, inr, Bool, true, false,
  none, some, List, [], ◌∷◌, ◌++◌, length, get_elem?, arith, Bool-cases,
}
use rosa_server.Base.Int.{ℤ, pos, negsuc}
use rosa_server.PointGraph.{NodePoint, ints_equal, points_equal, find_point}

ints_equal→eq : (a b : ℤ) → ints_equal a b ≡ true → a ≡ b
ints_equal→eq (pos a) (pos b) e = ground arith
ints_equal→eq (pos a) (negsuc b) e = cc
ints_equal→eq (negsuc a) (pos b) e = cc
ints_equal→eq (negsuc a) (negsuc b) e = ground arith

ints_equal_self : (a : ℤ) → ints_equal a a ≡ true
ints_equal_self (pos a) = ground arith
ints_equal_self (negsuc a) = ground arith

first_and : (a b : Bool) → (a && b) ≡ true → a ≡ true
first_and true b e = refl
first_and false b e = e

second_and : (a b : Bool) → (a && b) ≡ true → b ≡ true
second_and true b e = e
second_and false b e = cc

pub none≢some {ℓ} : {A : Type ℓ} {a : A} → none ≢ some a
none≢some e = cc

point-eq : (p q : NodePoint) → p.x ≡ q.x → p.y ≡ q.y → p.z ≡ q.z → p ≡ q
point-eq p q ex ey ez = cc

points_equal→eq : (p q : NodePoint) → points_equal p q ≡ true → p ≡ q
points_equal→eq p q e =
    let ex = ints_equal→eq p.x q.x in
    let ey = ints_equal→eq p.y q.y in
    let ez = ints_equal→eq p.z q.z in
    point-eq p q (ex (first_and _ _ (first_and _ _ e))) (ey (second_and _ _ (first_and _ _ e)))
      (ez (second_and _ _ e))

points_equal_self : (p : NodePoint) → points_equal p p ≡ true
points_equal_self p = rw (ints_equal_self p.x) (rw (ints_equal_self p.y) (ints_equal_self p.z))

-- The element at an index of a list with one more at the end.
get_elem?-snoc :
    (xs : List NodePoint) (y n : NodePoint) (i : ℕ)
    → get_elem? (xs ++ y ∷ []) i ≡ some n
    → (get_elem? xs i ≡ some n) ⊎ ((i ≡ length xs) × (y ≡ n))
get_elem?-snoc [] y n zero e = inr (refl, cc)
get_elem?-snoc [] y n (suc i) e = inl e
get_elem?-snoc (x ∷ xs) y n zero e = inl e
get_elem?-snoc (x ∷ xs) y n (suc i) e = elim (get_elem?-snoc xs y n i e) [
  | inl before ↦ inl before
  | inr (at_end, same) ↦ inr (ap suc at_end, same)
]

get_elem?-grow :
    (xs : List NodePoint) (y n : NodePoint) (i : ℕ)
    → get_elem? xs i ≡ some n
    → get_elem? (xs ++ y ∷ []) i ≡ some n
get_elem?-grow [] y n i e = absurd (none≢some e)
get_elem?-grow (x ∷ xs) y n zero e = e
get_elem?-grow (x ∷ xs) y n (suc i) e = get_elem?-grow xs y n i e

get_elem?-last :
    (xs : List NodePoint) (y : NodePoint) → get_elem? (xs ++ y ∷ []) (length xs) ≡ some y
get_elem?-last [] y = refl
get_elem?-last (x ∷ xs) y = get_elem?-last xs y

find_point_head :
    (entries : List (NodePoint × ℕ)) (p q : NodePoint) (i : ℕ)
    → points_equal p q ≡ false
    → find_point ((p, i) ∷ entries) q ≡ find_point entries q
find_point_head entries p q i e = rw e refl

find_point_self :
    (entries : List (NodePoint × ℕ)) (p q : NodePoint) (i : ℕ)
    → points_equal p q ≡ true
    → find_point ((p, i) ∷ entries) q ≡ some i
find_point_self entries p q i e = rw e refl

some-injective : {i j : ℕ} → some i ≡ some j → i ≡ j
some-injective e = cc

true≢false : true ≢ false
true≢false e = cc

-- The points by index, and the entries by point: an entry leads to a node of its point, and every
-- node's point has an entry, for that node or an earlier one.
pub record IsIndexed (points : List NodePoint) (entries : List (NodePoint × ℕ)) : Type 0 where
  pub found : (p : NodePoint) (i : ℕ) → find_point entries p ≡ some i → get_elem? points i ≡ some p
  pub listed :
      (i : ℕ) (p : NodePoint)
      → get_elem? points i ≡ some p
      → (j : ℕ) × (find_point entries p ≡ some j) × (j ≤ i)

-- A point that has an entry already keeps it.
pub IsIndexed-known :
    {points : List NodePoint} {entries : List (NodePoint × ℕ)} (p : NodePoint) (j : ℕ)
    → find_point entries p ≡ some j
    → j < length points
    → IsIndexed points entries
    → IsIndexed (points ++ p ∷ []) entries
IsIndexed-known {points = points} {entries = entries} p j e l v = record {
  found = λ q i f. get_elem?-grow points p q i (v.found q i f);
  listed = λ i q f. elim (get_elem?-snoc points p q i f) [
    | inl before ↦ v.listed i q before
    | inr (at_end, same) ↦ (j, ap (λ r. find_point entries r) (sym same) ∙ e, omega arith)
  ];
}

-- A point without an entry has no node yet.
newest_end :
    (points : List NodePoint) (entries : List (NodePoint × ℕ)) (p q : NodePoint) (i : ℕ)
    → find_point entries p ≡ none
    → IsIndexed points entries
    → p ≡ q
    → (get_elem? points i ≡ some q) ⊎ ((i ≡ length points) × (p ≡ q))
    → length points ≤ i
newest_end points entries p q i e v same (inl before) =
    let (j, there, le) = v.listed i q before in
    absurd (none≢some (sym e ∙ ap (λ r. find_point entries r) same ∙ there))
newest_end points entries p q i e v same (inr (at_end, _)) = omega arith

other_listed :
    (points : List NodePoint) (entries : List (NodePoint × ℕ)) (p q : NodePoint) (i : ℕ)
    → IsIndexed points entries
    → points_equal p q ≡ false
    → (get_elem? points i ≡ some q) ⊎ ((i ≡ length points) × (p ≡ q))
    → (j : ℕ) × (find_point ((p, length points) ∷ entries) q ≡ some j) × (j ≤ i)
other_listed points entries p q i v other (inl before) =
    let (j, there, le) = v.listed i q before in
    (j, find_point_head entries p q (length points) other ∙ there, le)
other_listed points entries p q i v other (inr (_, same)) =
    absurd (true≢false (sym (points_equal_self p) ∙ ap (points_equal p) same ∙ other))

pub IsIndexed-new :
    {points : List NodePoint} {entries : List (NodePoint × ℕ)} (p : NodePoint)
    → find_point entries p ≡ none
    → IsIndexed points entries
    → IsIndexed (points ++ p ∷ []) ((p, length points) ∷ entries)
IsIndexed-new {points = points} {entries = entries} p e v = record {
  found = λ q i f. elim (Bool-cases (points_equal p q)) [
    | inl same ↦
        ap (λ k. get_elem? (points ++ p ∷ []) k)
          (sym (some-injective (sym (find_point_self entries p q (length points) same) ∙ f)))
        ∙ get_elem?-last points p
        ∙ ap some (points_equal→eq p q same)
    | inr other ↦
        get_elem?-grow points p q i
          (v.found q i (sym (find_point_head entries p q (length points) other) ∙ f))
  ];
  listed = λ i q f. elim (Bool-cases (points_equal p q)) [
    | inl same ↦ (
      length points,
      find_point_self entries p q (length points) same,
      newest_end points entries p q i e v (points_equal→eq p q same)
          (get_elem?-snoc points p q i f),
    )
    | inr other ↦ other_listed points entries p q i v other (get_elem?-snoc points p q i f)
  ];
}

pub below_length :
    (points : List NodePoint) (i : ℕ) (p : NodePoint)
    → get_elem? points i ≡ some p
    → i < length points
below_length [] i p e = absurd (none≢some e)
below_length (q ∷ points) zero p e = omega arith
below_length (q ∷ points) (suc i) p e = omega (arith, below_length points i p e)
