-- ===== src/Timer/Due.antt =====
-- The time that timer_add of src/timer.inl gives to a timer.
use civetweb.Base.{Bool, false, if_split, if◌then◌else◌, inl, inr, refl, true, ◌≡◌, ◌⊎◌}
use civetweb.Timer.{due_time}

module _ {Time : Type 0} (lt : Time → Time → Bool) (add : Time → Time → Time) where
  -- The time at which a timer is to run: the one that is asked for, counted from now if it is
  -- relative, or now if that is in the past.
  abbrev pub IsAsked : Time → Time → Bool → Time → Type 0
  IsAsked now next_time is_relative t =
      ((is_relative ≡ true) × (t ≡ add next_time now)) ⊎ ((is_relative ≡ false) × (t ≡ next_time))

  abbrev pub IsDueTime : Time → Time → Bool → Time → Type 0
  IsDueTime now next_time is_relative t =
      (asked : Time) × IsAsked now next_time is_relative asked
      × (((lt asked now ≡ true) × (t ≡ now)) ⊎ ((lt asked now ≡ false) × (t ≡ asked)))

  pub due_time-IsDueTime :
      (now next_time : Time) (is_relative : Bool)
      → IsDueTime now next_time is_relative (due_time lt add now next_time is_relative)
  unfolding due_time
  due_time-IsDueTime now next_time is_relative =
      let asked = if is_relative then add next_time now else next_time in
      (
        asked,
        if_split (IsAsked now next_time is_relative) is_relative _ _ (λ e. inl (e, refl))
            (λ e. inr (e, refl)),
        if_split (λ t. ((lt asked now ≡ true) × (t ≡ now)) ⊎ ((lt asked now ≡ false) × (t ≡ asked)))
            (lt asked now) _ _ (λ e. inl (e, refl)) (λ e. inr (e, refl)),
      )
