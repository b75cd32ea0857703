-- ===== src/Window/History.antt =====
-- The ring of slots against the list of all calls of `UpdateQos` so far.
use modern_flux.Base.{
  ℕ, ◌+◌, ◌%◌, ◌≤◌, ◌<◌, ◌≡◌, ◌≢◌, refl, Bool, true, false, List, [], ◌∷◌, arith, ◌==◌,
  if◌then◌else◌, get_or, length, length-set, get_or-set_self, get_or-set_ne, get_or-replicate,
  Bool-cases, inl, inr, ◌&&◌, ◌∙◌, sym, ap, ==_iff,
}
use modern_flux.Base.Word.{mod64}
use modern_flux.Window.{QuaItem, QuaWin, empty_item, init_win, update_item, update_win}

-- The calls, newest first: the second, and whether the call was a success.
abbrev pub History : Type 0
History = List (ℕ × Bool)

abbrev same : Bool → Bool → Bool
same true b = b
same false true = false
same false false = true

-- The calls with result `b` in second `t`.
unfoldable pub count : Bool → ℕ → History → ℕ
count b t [] = 0
count b t ((u, c) ∷ h) = (if (u == t) && same c b then 1 else 0) + count b t h

-- The latest second of a call that falls into slot `i`, or 0.
unfoldable pub last_in : ℕ → History → ℕ
last_in i [] = 0
last_in i ((u, c) ∷ h) = if u % 30 == i then u else last_in i h

-- The clock does not go back, and has left 0.
abbrev pub Ordered : ℕ → History → Type 0
Ordered now [] = Unit {0}
Ordered now ((u, c) ∷ h) = (u ≤ now) × (0 < u) × Ordered u h

abbrev pub replay : History → QuaWin
replay [] = init_win
replay ((u, c) ∷ h) = update_win u c (replay h)

pub last_in-le : (i now : ℕ) (h : History) → Ordered now h → last_in i h ≤ now
unfolding last_in
last_in-le i now [] o = omega arith
last_in-le i now ((u, c) ∷ h) o = ground (arith, last_in-le i u h o.2)

pub last_in-mod : (i : ℕ) (h : History) → last_in i h ≢ 0 → last_in i h % 30 ≡ i
unfolding last_in
last_in-mod i [] n = absurd (n refl)
last_in-mod i ((u, c) ∷ h) n = ground (arith, last_in-mod i h)

-- No call in a second after the latest one of its slot.
pub count_after :
    (b : Bool) (t now : ℕ) (h : History) → Ordered now h → last_in (t % 30) h < t → count b t h ≡ 0
unfolding count last_in
count_after b t now [] o lt = refl
count_after b t now ((u, c) ∷ h) o lt =
    ground (arith, count_after b t u h o.2, last_in-le (t % 30) u h o.2)

-- A slot holds the counts of the latest second that fell into it.
abbrev pub slot : ℕ → History → QuaItem
slot i h = record {
  ttime = last_in i h;
  suc = count true (last_in i h) h % mod64;
  fail = count false (last_in i h) h % mod64;
}

update_item-slot :
    (t : ℕ) (c : Bool) (h : History)
    → Ordered t h
    → 0 < t
    → update_item t c (slot (t % 30) h) ≡ slot (t % 30) ((t, c) ∷ h)
unfolding update_item count last_in
update_item-slot t true h o p = ground (
  arith,
  last_in-le (t % 30) t h o,
  last_in-mod (t % 30) h,
  count_after true t t h o,
  count_after false t t h o,
)
update_item-slot t false h o p = ground (
  arith,
  last_in-le (t % 30) t h o,
  last_in-mod (t % 30) h,
  count_after true t t h o,
  count_after false t t h o,
)

length-replay : (h : History) → length (replay h).item ≡ 30
unfolding update_win
length-replay [] = refl
length-replay ((u, c) ∷ h) =
    length-set (replay h).item (u % 30)
      (update_item u c (get_or (replay h).item (u % 30) empty_item))
    ∙ length-replay h

-- A call leaves the other slots alone.
slot_ne : (i u : ℕ) (c : Bool) (h : History) → 0 < u → u % 30 ≢ i → slot i ((u, c) ∷ h) ≡ slot i h
unfolding last_in count
slot_ne i u c h p n = ground (arith, last_in-mod i h)

own_slot :
    (u : ℕ) (c : Bool) (h : History)
    → Ordered u h
    → 0 < u
    → get_or (replay h).item (u % 30) empty_item ≡ slot (u % 30) h
    → get_or (replay ((u, c) ∷ h)).item (u % 30) empty_item ≡ slot (u % 30) ((u, c) ∷ h)
unfolding update_win
own_slot u c h o p e =
    get_or-set_self (replay h).item (u % 30) _ empty_item (rw length-replay (omega arith))
    ∙ ap (update_item u c) e
    ∙ update_item-slot u c h o p

-- With a clock that does not go back, the ring is at all times what the history says it should be:
-- slot `i` holds the latest second that fell into it and the calls of that second.
pub replay-slot :
    (now i : ℕ) (h : History)
    → Ordered now h
    → i < 30
    → get_or (replay h).item i empty_item ≡ slot i h
unfolding update_win
replay-slot now i [] o lt = unfold count last_in in get_or-replicate 30 i empty_item
replay-slot now i ((u, c) ∷ h) o lt = elim (Bool-cases (u % 30 == i)) [
  | inl e ↦
      rw (← (==_iff (u % 30) i).0 e)
        (own_slot u c h o.2 o.1 (replay-slot u (u % 30) h o.2 (omega arith)))
  | inr e ↦
      get_or-set_ne (replay h).item (u % 30) i _ empty_item (ground arith)
      ∙ replay-slot u i h o.2 lt
      ∙ sym (slot_ne i u c h o.1 (ground arith))
]
