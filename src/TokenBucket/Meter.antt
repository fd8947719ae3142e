-- ===== src/TokenBucket/Meter.antt =====
-- Draws for many keys, one behind another: what the buckets let through for one key.
use api_x.Base.{
  ℕ, ◌+◌, ◌-◌, ◌*◌, ◌≤◌, Text, Bool, ◌&&◌, List, [], ◌∷◌, if◌then◌else◌, refl, arith, Bool-cases,
  inl, inr,
}
use api_x.Base.Strings.{text_eq, text_eq_iff}
use api_x.Base.Maps.{Assoc, lookup}
use api_x.TokenBucket.{Bucket, new_token_bucket, second, draw}
use api_x.TokenBucket.Bounds.{
  refill_on, room_at, room_at-later, UpTo, UpTo-later, lookup-draw_other, UpTo-draw, draw_le,
}

-- The readings of the clock do not fall, from a first one to a last one.
abbrev pub Timed {ℓ} : {A : Type ℓ} → ℕ → List (A × ℕ) → ℕ → Type 0
Timed t [] end = t ≤ end
Timed t ((a, now) ∷ calls) end = (t ≤ now) × Timed now calls end

abbrev pub one_if : Bool → ℕ
one_if ok = if ok then 1 else 0

-- How many draws for the key get a token.
unfoldable pub granted : ℕ → Text → List (Text × ℕ) → Assoc Bucket → ℕ
granted rate key [] m = 0
granted rate key ((k, now) ∷ calls) m =
    let (m', ok) = draw second now (new_token_bucket rate now) k m in
    one_if (text_eq k key && ok) + granted rate key calls m'

pub in_order {ℓ} : {A : Type ℓ} (calls : List (A × ℕ)) (t end : ℕ) → Timed t calls end → t ≤ end
in_order [] t end h = h
in_order ((a, now) ∷ calls) t end h = omega (arith, in_order calls now end h.1)

module _ (rate : ℕ) (key : Text) where
  abbrev room_in : ℕ → Assoc Bucket → ℕ
  room_in t m = room_at (rate * second) t (lookup key m)

  -- One draw, for this key or for another one.
  step_le :
      (t now : ℕ) (k : Text) (m : Assoc Bucket)
      → t ≤ now
      → UpTo t rate (lookup key m)
      → let (m', ok) = draw second now (new_token_bucket rate now) k m in
        UpTo now rate (lookup key m')
        × (room_in now m' + one_if (text_eq k key && ok) * second ≤ room_in t m + (now - t) * rate)
  unfolding new_token_bucket
  step_le t now k m le u =
      let fresh = new_token_bucket rate now in
      elim (Bool-cases (text_eq k key)) [
        | inl e ↦
            rw (e, (text_eq_iff k key).0 e)
              (
                UpTo-draw second t now fresh key m u,
                let paid = draw_le second t now fresh key m le refl u in ground (arith, paid),
              )
        | inr e ↦
            rw (e, lookup-draw_other second t now fresh k m key e)
              (
                UpTo-later t now rate (lookup key m) le u,
                let still = room_at-later (rate * second) t now rate (lookup key m) le u in
                    omega (arith, still),
              )
      ]

  pub granted_le :
      (calls : List (Text × ℕ)) (t end : ℕ) (m : Assoc Bucket)
      → Timed t calls end
      → UpTo t rate (lookup key m)
      → granted rate key calls m * second ≤ room_in t m + (end - t) * rate
  unfolding granted
  granted_le [] t end m le u = omega arith
  granted_le ((k, now) ∷ calls) t end m (le, on) u =
      let (u', paid) = step_le t now k m le u in
      let m' = (draw second now (new_token_bucket rate now) k m).0 in
      let rest = granted_le calls now end m' on u' in
      omega (arith, paid, rest, refill_on t now end rate le (in_order calls now end on))
