-- ===== src/Patterns/GsubLoop.antt =====
-- The loop of string.gsub (src/lstrlib.c), with an invariant of the buffer and the position.
use mathlib.Core.Path.{subst}
use lunacy.Base.{
  ℕ, zero, suc, ◌+◌, ◌≤◌, ◌<◌, ◌≡◌, Bool, [], ◌∷◌, ◌++◌, ltb, leb, if_both, if_cases, length,
  get_or, drop, arith,
}
use lunacy.Patterns.{
  Bytes, Ctype, MatchState, Outcome, matched, failed, raised, Result, ok, error, and_then,
}
use lunacy.Patterns.Shorter.{Known}
use lunacy.Patterns.Outcomes.{Good}
use lunacy.Patterns.Find.{match_at}
use lunacy.Patterns.Substitute.{Replacement, add_value, Done, gsub_on, gsub_loop}
use lunacy.Patterns.Ends.{match_at-Good}

module _ (ctype : Ctype) (number_text : ℕ → Bytes) (s : Bytes) where
  module _ (repl : Replacement) (Inv : ℕ → Bytes → Type 0) (Post : Bytes → Type 0) where
    abbrev pub Added : ℕ → Bytes → Result Bytes → Type 0
    Added e b (ok t) = Inv e (b ++ t)
    Added e b (error err) = Known err

    abbrev pub Finished : Result Done → Type 0
    Finished (ok (t, n)) = Post t
    Finished (error err) = Known err

    module _
        (adds : (st : MatchState) (i e : ℕ) (b : Bytes)
          → i ≤ e
          → e ≤ length s
          → Inv i b
          → Added e b (add_value ctype number_text s repl st i e))
        (byte : (i : ℕ) (b : Bytes) → i < length s → Inv i b → Inv (suc i) (b ++ get_or s i 0 ∷ []))
        (done : (i : ℕ) (b : Bytes) → Inv i b → Post (b ++ drop i s)) where
      gsub_on-Finished :
          (anchor : Bool) (next : ℕ → Bytes → Result Done) (n i e : ℕ) (b : Bytes)
          → ((i' : ℕ) (b' : Bytes) → i < i' → i' ≤ length s → Inv i' b' → Finished (next i' b'))
          → i ≤ e
          → e ≤ length s
          → Inv e b
          → Finished (gsub_on ctype number_text s anchor next n i e b)
      unfolding gsub_on
      gsub_on-Finished anchor next n i e b run from to inv =
          if_cases Finished (ltb i e)
            (λ h. if_both Finished anchor (done e b inv) (run e b (ground arith) to inv))
            (λ h.
              let same : e ≡ i = ground arith in
              let here : Inv i b = subst (λ k. Inv k b) same inv in
              if_cases Finished (ltb i (length s))
                (λ more.
                  let less : i < length s = ground arith in
                  let after = byte i b less here in
                  if_both Finished anchor (done (suc i) _ after)
                    (run (suc i) _ (omega arith) less after))
                (λ last. done i b here))

      matched-Finished :
          (anchor : Bool) (next : ℕ → Bytes → Result Done) (n i e : ℕ) (b : Bytes)
          (r : Result Bytes)
          → ((i' : ℕ) (b' : Bytes) → i < i' → i' ≤ length s → Inv i' b' → Finished (next i' b'))
          → i ≤ e
          → e ≤ length s
          → Added e b r
          → Finished (and_then (λ t. gsub_on ctype number_text s anchor next n i e (b ++ t)) r)
      matched-Finished anchor next n i e b (ok t) run from to h =
          gsub_on-Finished anchor next n i e (b ++ t) run from to h
      matched-Finished anchor next n i e b (error err) run from to h = h

      pub gsub_loop-Finished :
          (anchor : Bool) (p : Bytes) (max_s rounds n i : ℕ) (b : Bytes)
          → length s < i + rounds
          → i ≤ length s
          → Inv i b
          → Finished (gsub_loop ctype number_text s anchor p repl max_s rounds n i b)
      unfolding gsub_loop
      gsub_loop-Finished anchor p max_s zero n i b enough le inv = absurd (omega arith)
      gsub_loop-Finished anchor p max_s (suc rounds) n i b enough le inv =
          if_both Finished (leb max_s n) (done i b inv) (
            go (match_at ctype s p i) (match_at-Good ctype s p i le) (λ n' i' b' from to inv'.
              gsub_loop-Finished anchor p max_s rounds n' i' b' (omega arith) to inv'))
        where
          go :
              (o : Outcome)
              → Good (length s) i [] o
              → ((n' i' : ℕ) (b' : Bytes)
                  → i < i'
                  → i' ≤ length s
                  → Inv i' b'
                  → Finished (gsub_loop ctype number_text s anchor p repl max_s rounds n' i' b'))
              → Finished (elim o [
                | raised err ↦ error err
                | failed st ↦
                    gsub_on ctype number_text s anchor
                      (gsub_loop ctype number_text s anchor p repl max_s rounds n)
                      n
                      i
                      i
                      b
                | matched e st ↦
                    and_then
                      (λ t.
                        gsub_on ctype number_text s anchor
                          (gsub_loop ctype number_text s anchor p repl max_s rounds (suc n))
                          (suc n)
                          i
                          e
                          (b ++ t))
                      (add_value ctype number_text s repl st i e)
              ])
          go (raised err) good run = good
          go (failed st) good run = gsub_on-Finished anchor _ n i i b (run n) (omega arith) le inv
          go (matched e st) (from, to, caps) run =
              matched-Finished anchor _ (suc n) i e b _ (run (suc n)) from to
                (adds st i e b from to inv)
