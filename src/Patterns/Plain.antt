-- ===== src/Patterns/Plain.antt =====
-- `lmemfind` (src/lstrlib.c): the search for a text in another one. A pointer into the subject is
-- its distance from the start and the text from there on.
use lunacy.Base.{
  ℕ, zero, suc, ◌+◌, ◌-◌, ◌≤◌, ◌<◌, ◌≡◌, refl, sym, ap, ◌∙◌, inl, inr, Bool, true, false, ◌&&◌, [],
  ◌∷◌, Option, none, some, ltb, ◌==◌, if_cases, if_both, ltb→lt, Bool-cases, if◌then◌else◌, length,
  take, same_bytes, arith,
}
use lunacy.Patterns.{Bytes}

-- Where `memchr` finds a byte, and the text behind it.
pub record Hit : Type 0 where
  pub offset : ℕ
  pub behind : Bytes

unfoldable pub memchr : ℕ → ℕ → ℕ → Bytes → Option Hit
memchr c zero i text = none
memchr c (suc l) i [] = none
memchr c (suc l) i (a ∷ text) =
    let further = memchr c l (suc i) text in
    if a == c then some (record { offset = i; behind = text }) else further

-- The end of a round: `memcmp` behind the first byte.
abbrev pub on_hit : Bytes → (Hit → Option ℕ) → Option Hit → Option ℕ
on_hit p again none = none
on_hit p again (some hit) =
    if same_bytes (take (length p) hit.behind) p then some hit.offset else again hit

-- The loop, for the text `a ∷ p` at the `l` first positions of `text`, which starts at `i`.
unfoldable pub memfind_loop : ℕ → Bytes → ℕ → ℕ → ℕ → Bytes → Option ℕ
memfind_loop a p zero l i text = none
memfind_loop a p (suc rounds) l i text =
    on_hit p (λ hit. memfind_loop a p rounds (l - (suc hit.offset - i)) (suc hit.offset) hit.behind)
      (memchr a l i text)

-- Every round but the last goes past a byte, so one more round than there are positions is enough.
unfoldable pub lmemfind : Bytes → Bytes → Option ℕ
lmemfind s [] = some 0
lmemfind s (a ∷ p) =
    if ltb (length s) (suc (length p))
    then none
    else memfind_loop a p (suc (length s - length p)) (length s - length p) 0 s

-- The text starts with `p`.
abbrev pub starts : Bytes → Bytes → Bool
starts [] text = true
starts (a ∷ p) [] = false
starts (a ∷ p) (b ∷ text) = b == a && starts p text

-- The first position at which a text starts with `p`: an independent description of the search.
unfoldable pub first_at : Bytes → ℕ → Bytes → Option ℕ
first_at p i [] = if starts p [] then some i else none
first_at p i (b ∷ text) =
    let further = first_at p (suc i) text in if starts p (b ∷ text) then some i else further

starts-length : (p text : Bytes) → starts p text ≡ true → length p ≤ length text
starts-length [] text h = omega arith
starts-length (a ∷ p) [] h = absurd cc
starts-length (a ∷ p) (b ∷ text) h = ground (arith, starts-length p text)

same_bytes-starts : (p text : Bytes) → same_bytes (take (length p) text) p ≡ starts p text
unfolding same_bytes
same_bytes-starts [] [] = refl
same_bytes-starts [] (b ∷ text) = refl
same_bytes-starts (a ∷ p) [] = refl
same_bytes-starts (a ∷ p) (b ∷ text) = ap (λ r. b == a && r) (same_bytes-starts p text)

first_at-short :
    (p : Bytes) (i : ℕ) (text : Bytes) → length text < length p → first_at p i text ≡ none
unfolding first_at
first_at-short p i [] less =
    if_cases (λ o. o ≡ none) (starts p []) (λ h. absurd (omega (arith, starts-length p [] h)))
      (λ h. refl)
first_at-short p i (b ∷ text) less =
    if_cases (λ o. o ≡ none) (starts p (b ∷ text))
      (λ h. absurd (omega (arith, starts-length p (b ∷ text) h)))
      (λ h. first_at-short p (suc i) text (omega arith))

abbrev After : ℕ → Option Hit → Type 0
After i none = Unit
After i (some hit) = i ≤ hit.offset

After-earlier : (i : ℕ) (o : Option Hit) → After (suc i) o → After i o
After-earlier i none h = tt
After-earlier i (some hit) h = omega arith

memchr-After : (c l i : ℕ) (text : Bytes) → After i (memchr c l i text)
unfolding memchr
memchr-After c zero i text = tt
memchr-After c (suc l) i [] = tt
memchr-After c (suc l) i (a ∷ text) =
    if_both (After i) (a == c) (omega arith) (After-earlier i _ (memchr-After c l (suc i) text))

-- The next round from one byte further on.
memfind_loop-next :
    (a : ℕ) (p : Bytes) (rounds l i : ℕ) (text : Bytes) (o : Option Hit)
    → After (suc i) o
    → on_hit p
        (λ hit. memfind_loop a p rounds (suc l - (suc hit.offset - i)) (suc hit.offset) hit.behind)
        o
      ≡ on_hit p
          (λ hit.
            memfind_loop a p rounds (l - (suc hit.offset - suc i)) (suc hit.offset) hit.behind)
          o
memfind_loop-next a p rounds l i text none h = refl
memfind_loop-next a p rounds l i text (some hit) h =
    let same : suc l - (suc hit.offset - i) ≡ l - (suc hit.offset - suc i) = omega arith in
    ap
      (λ left.
        if same_bytes (take (length p) hit.behind) p
        then some hit.offset
        else memfind_loop a p rounds left (suc hit.offset) hit.behind)
      same

memfind_loop-first_at :
    (a : ℕ) (p : Bytes) (rounds l i : ℕ) (text : Bytes)
    → l < rounds
    → l + length p ≡ length text
    → memfind_loop a p rounds l i text ≡ first_at (a ∷ p) i text
unfolding memfind_loop first_at memchr
memfind_loop-first_at a p zero l i text enough size = absurd (omega arith)
memfind_loop-first_at a p (suc rounds) zero i text enough size =
    sym (first_at-short (a ∷ p) i text (omega arith))
memfind_loop-first_at a p (suc rounds) (suc l) i [] enough size = absurd (omega arith)
memfind_loop-first_at a p (suc rounds) (suc l) i (b ∷ text) enough size =
    elim (Bool-cases (b == a)) [
      | inl is ↦
          let one : suc l - (suc i - i) ≡ l = omega arith in
          let next = memfind_loop-first_at a p rounds l (suc i) text (omega arith) (omega arith) in
          rw (is, one, same_bytes-starts p text)
            (ap (λ r. if starts p text then some i else r) next)
      | inr isnt ↦
          let next =
            memfind_loop-first_at a p (suc rounds) l (suc i) text (omega arith) (omega arith) in
          rw (isnt) (
            memfind_loop-next a p rounds l i text (memchr a l (suc i) text)
              (memchr-After a l (suc i) text)
            ∙ next)
    ]

first_at-nil : (i : ℕ) (text : Bytes) → some i ≡ first_at [] i text
unfolding first_at
first_at-nil i [] = refl
first_at-nil i (b ∷ text) = refl

-- The search finds the first position at which the subject has the text, if there is one.
pub lmemfind-first_at : (s p : Bytes) → lmemfind s p ≡ first_at p 0 s
unfolding lmemfind
lmemfind-first_at s [] = first_at-nil 0 s
lmemfind-first_at s (a ∷ p) =
    if_cases (λ o. o ≡ first_at (a ∷ p) 0 s) (ltb (length s) (suc (length p)))
      (λ h. sym (first_at-short (a ∷ p) 0 s (ltb→lt _ _ h)))
      (λ h.
        memfind_loop-first_at a p (suc (length s - length p)) (length s - length p) 0 s
          (omega arith) (ground arith))
