-- ===== src/Uvgrtp/LatencySender/Steps.antt =====
-- The laws of `and_then`, by which a loop over units is a loop over all of their NAL units.
use rtp_benchmarks.Common.{
  ◌≡◌, refl, sym, ap, ◌∙◌, true, false, List, [], ◌++◌, append_assoc, Result, ok, err, ◌>>=◌,
}
use rtp_benchmarks.Uvgrtp.Sender.{Event}
use rtp_benchmarks.Uvgrtp.LatencySender.{Step, and_then}

module _ {S : Type 0} where
  abbrev behind : List Event → Result (Step S) → Result (Step S)
  behind events (err e) = err e
  behind events (ok (more, s, running)) = ok (events ++ more, s, running)

  and_then-behind :
      (events : List Event) (s : S) (g : S → Result (Step S))
      → and_then (events, s, true) g ≡ behind events (g s)
  unfolding and_then
  and_then-behind events s g = same (g s)
    where
      same :
          (r : Result (Step S))
          → (do (more, last, running) ← r; ok (events ++ more, last, running)) ≡ behind events r
      same (ok r) = refl
      same (err e) = refl

  pub and_then_nil : (s : S) (g : S → Result (Step S)) → and_then ([], s, true) g ≡ g s
  and_then_nil s g = and_then-behind [] s g ∙ same (g s)
    where
      same : (r : Result (Step S)) → behind [] r ≡ r
      same (ok r) = refl
      same (err e) = refl

  behind_twice :
      (events more : List Event) (r : Result (Step S))
      → behind (events ++ more) r ≡ behind events (behind more r)
  behind_twice events more (err e) = refl
  behind_twice events more (ok (rest, t, running)) =
      ap (λ l. ok (l, t, running)) (append_assoc events more rest)

  behind-stopped :
      (events more : List Event) (s : S) (g : S → Result (Step S))
      → and_then (events ++ more, s, false) g ≡ behind events (and_then (more, s, false) g)
  unfolding and_then
  behind-stopped events more s g = refl

  behind-and_then :
      (events : List Event) (r : Result (Step S)) (g : S → Result (Step S))
      → (behind events r >>= (λ q. and_then q g)) ≡ behind events (r >>= (λ q. and_then q g))
  behind-and_then events (err e) g = refl
  behind-and_then events (ok (more, s, false)) g = behind-stopped events more s g
  behind-and_then events (ok (more, s, true)) g =
      and_then-behind (events ++ more) s g
      ∙ behind_twice events more (g s)
      ∙ ap (behind events) (sym (and_then-behind more s g))

  pub and_then_assoc :
      (first : Step S) (f g : S → Result (Step S))
      → (and_then first f >>= (λ r. and_then r g))
        ≡ and_then first (λ s. f s >>= (λ r. and_then r g))
  unfolding and_then
  and_then_assoc (events, s, false) f g = refl
  and_then_assoc (events, s, true) f g =
      ap (λ m. m >>= (λ r. and_then r g)) (and_then-behind events s f)
      ∙ behind-and_then events (f s) g
      ∙ sym (and_then-behind events s (λ t. f t >>= (λ r. and_then r g)))
