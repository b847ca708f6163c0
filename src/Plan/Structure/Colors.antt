-- ===== src/Plan/Structure/Colors.antt =====
-- The colors of the depth-first search: what a step of it changes, and the finished steps in their order.
use jagent.Base.{
  ℕ, ◌+◌, ◌≤◌, ◌<◌, String, Bool, true, false, List, [], ◌∷◌, ◌==◌, elem, length, if◌then◌else◌,
  Dict, lookup_or, lookup_or-insert, insert, ◌≡◌, refl, arith, eq_iff, inl, inr, Bool-cases,
}
use jagent.Plan.Structure.{Color, white, gray, black, Dfs, enter}

unfoldable pub color_of : Dfs → String → Color
color_of d n = lookup_or n white d.color

-- A list of finished steps, the last one first: the dependencies of each stand behind it.
module _ (adjacency : Dict (List String)) where
  unfoldable pub adj : String → List String
  adj n = lookup_or n [] adjacency

  unfoldable pub Settled : List String → Type 0
  Settled [] = Unit
  Settled (n ∷ ns) =
      ((m : String) → elem m (adj n) ≡ true → elem m ns ≡ true) × (elem n ns ≡ false) × Settled ns

  -- The black steps are those of the list.
  pub record Blackened (d : Dfs) (ns : List String) : Type 0 where
    pub settled : Settled ns
    pub sound : (n : String) → color_of d n ≡ black → elem n ns ≡ true
    pub complete : (n : String) → elem n ns ≡ true → color_of d n ≡ black

  pub Blackened-enter :
      (sid : String) (d : Dfs) (ns : List String)
      → color_of d sid ≡ white
      → Blackened d ns
      → Blackened (enter sid d) ns
  unfolding enter color_of
  Blackened-enter sid d ns w b = record {
    settled = b.settled;
    sound =
        λ n h. ground (arith, lookup_or-insert sid n gray white d.color, b.sound n, eq_iff sid n);
    complete = λ n h.
        ground (arith, lookup_or-insert sid n gray white d.color, b.complete n h, w, eq_iff sid n);
  }

  -- A step on whose dependencies all are finished is finished.
  pub Blackened-leave :
      (sid : String) (stack : List String) (d : Dfs) (ns : List String)
      → color_of d sid ≡ gray
      → ((m : String) → elem m (adj sid) ≡ true → elem m ns ≡ true)
      → Blackened d ns
      → Blackened (record { color = insert sid black d.color; stack = stack }) (sid ∷ ns)
  unfolding color_of Settled elem
  Blackened-leave sid stack d ns g deps b = record {
    settled = (deps, new, b.settled);
    sound = λ n h.
        ground (
          arith,
          lookup_or-insert sid n black white d.color,
          b.sound n,
          eq_iff sid n,
          eq_iff n sid,
        );
    complete = λ n h. ground (
      arith,
      lookup_or-insert sid n black white d.color,
      b.complete n,
      eq_iff sid n,
      eq_iff n sid,
    );
  }
    where
      new : elem sid ns ≡ false
      new = elim (Bool-cases (elem sid ns)) [
        | inr out ↦ out
        | inl inside ↦ absurd (ground (arith, b.complete sid inside))
      ]

-- A later state of the search, between two visits: the same steps are gray, and nothing turns white.
pub record Later (d d' : Dfs) : Type 0 where
  pub gray_stays : (n : String) → color_of d n ≡ gray → color_of d' n ≡ gray
  pub gray_was : (n : String) → color_of d' n ≡ gray → color_of d n ≡ gray
  pub white_was : (n : String) → color_of d' n ≡ white → color_of d n ≡ white

pub Later-refl : (d : Dfs) → Later d d
Later-refl d = record { gray_stays = λ n h. h; gray_was = λ n h. h; white_was = λ n h. h }

pub Later-trans : (d e f : Dfs) → Later d e → Later e f → Later d f
Later-trans d e f p q = record {
  gray_stays = λ n h. q.gray_stays n (p.gray_stays n h);
  gray_was = λ n h. p.gray_was n (q.gray_was n h);
  white_was = λ n h. p.white_was n (q.white_was n h);
}

is_white : Color → Bool
is_white white = true
is_white gray = false
is_white black = false

-- How many of the ids are white.
pub whites : List String → Dfs → ℕ
unfolding is_white
whites [] d = 0
whites (n ∷ ns) d = (if is_white (color_of d n) then 1 else 0) + whites ns d

pub whites-length : (ids : List String) (d : Dfs) → whites ids d ≤ length ids
unfolding whites
whites-length [] d = omega arith
whites-length (n ∷ ids) d = ground (arith, whites-length ids d)

white_iff : (c : Color) → is_white c ≡ true → c ≡ white
unfolding is_white
white_iff white h = refl
white_iff gray h = cc
white_iff black h = cc

pub whites-le :
    (ids : List String) (d e : Dfs)
    → ((n : String) → color_of e n ≡ white → color_of d n ≡ white)
    → whites ids e ≤ whites ids d
unfolding whites is_white
whites-le [] d e was = omega arith
whites-le (n ∷ ids) d e was = elim (Bool-cases (is_white (color_of e n))) [
  | inl w ↦ ground (arith, was n (white_iff (color_of e n) w), whites-le ids d e was)
  | inr b ↦ ground (arith, b, whites-le ids d e was)
]

enter-white :
    (sid : String) (d : Dfs) (n : String) → color_of (enter sid d) n ≡ white → color_of d n ≡ white
unfolding enter color_of
enter-white sid d n h = ground (arith, lookup_or-insert sid n gray white d.color)

pub enter-gray : (sid : String) (d : Dfs) → color_of (enter sid d) sid ≡ gray
unfolding enter color_of
enter-gray sid d = ground (arith, lookup_or-insert sid sid gray white d.color, eq_iff sid sid)

pub leave-white :
    (sid : String) (stack : List String) (d : Dfs) (n : String)
    → color_of (record { color = insert sid black d.color; stack = stack }) n ≡ white
    → color_of d n ≡ white
unfolding color_of
leave-white sid stack d n h = ground (arith, lookup_or-insert sid n black white d.color)

-- A whole visit: a white step turns gray, and black at its end.
pub Later-leave :
    (sid : String) (stack : List String) (d e : Dfs)
    → color_of d sid ≡ white
    → Later (enter sid d) e
    → Later d (record { color = insert sid black e.color; stack = stack })
unfolding color_of enter
Later-leave sid stack d e w l = record {
  gray_stays = λ n h. ground (
    arith,
    lookup_or-insert sid n black white e.color,
    lookup_or-insert sid n gray white d.color,
    l.gray_stays n,
    eq_iff sid n,
  );
  gray_was = λ n h. ground (
    arith,
    lookup_or-insert sid n black white e.color,
    lookup_or-insert sid n gray white d.color,
    l.gray_was n,
    eq_iff sid n,
  );
  white_was = λ n h. ground (
    arith,
    lookup_or-insert sid n black white e.color,
    lookup_or-insert sid n gray white d.color,
    l.white_was n,
    eq_iff sid n,
  );
}

pub whites-enter :
    (ids : List String) (sid : String) (d : Dfs)
    → color_of d sid ≡ white
    → elem sid ids ≡ true
    → whites ids (enter sid d) < whites ids d
unfolding whites is_white elem enter color_of
whites-enter [] sid d w h = cc
whites-enter (n ∷ ids) sid d w h = elim (Bool-cases (sid == n)) [
  | inl same ↦ ground (
    arith,
    lookup_or-insert sid n gray white d.color,
    whites-le ids d (enter sid d) (enter-white sid d),
    eq_iff sid n,
    w,
  )
  | inr other ↦
      ground
        (arith, lookup_or-insert sid n gray white d.color, whites-enter ids sid d w, eq_iff sid n)
]
