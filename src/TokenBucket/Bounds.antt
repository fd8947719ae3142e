-- ===== src/TokenBucket/Bounds.antt =====
-- What the buckets of a map can still give out.
use api_x.Base.{
  ℕ, ◌+◌, ◌-◌, ◌*◌, ◌≤◌, Text, Bool, false, Option, none, some, if◌then◌else◌, ◌≡◌, refl, ◌∙◌,
  arith,
}
use native.Mathlib.Nat.{add-mul, zero-mul}
use api_x.Base.Strings.{text_eq, text_eq_refl}
use api_x.Base.Maps.{Assoc, lookup, lookup-insert}
use api_x.TokenBucket.{Bucket, allow, or_fresh, draw}

-- The parts that a call costs.
abbrev pub cost : ℕ → Bool → ℕ
cost parts ok = if ok then parts else 0

-- What the bucket has at a time, refilled without a cap.
abbrev pub room : ℕ → Bucket → ℕ
room now b = b.tokens + (now - b.last_time) * b.rate

pub refill_on : (a b c r : ℕ) → a ≤ b → b ≤ c → (c - a) * r ≡ (b - a) * r + (c - b) * r
refill_on a b c r p q =
    let e : c - a ≡ (b - a) + (c - b) = omega arith in rw e (add-mul (b - a) (c - b) r)

pub allow_le :
    (parts now : ℕ) (b : Bucket)
    → (allow parts now b).0.tokens + cost parts (allow parts now b).1 ≤ room now b
unfolding allow
allow_le parts now b = ground arith

pub allow-keeps :
    (parts now : ℕ) (b : Bucket)
    → ((allow parts now b).0.rate ≡ b.rate)
      × ((allow parts now b).0.last_time ≡ now)
      × ((allow parts now b).0.capacity ≡ b.capacity)
unfolding allow
allow-keeps parts now b = ground arith

-- What a key of a map has at a time; a key with no bucket has what a fresh bucket holds.
abbrev pub room_at : ℕ → ℕ → Option Bucket → ℕ
room_at cap t none = cap
room_at cap t (some b) = room t b

-- The bucket of a key was last used at that time or before, and has the rate.
abbrev pub UpTo : ℕ → ℕ → Option Bucket → Type 0
UpTo t rate none = Unit
UpTo t rate (some b) = (b.last_time ≤ t) × (b.rate ≡ rate)

room_on :
    (t now : ℕ) (b : Bucket)
    → b.last_time ≤ t
    → t ≤ now
    → room now b ≡ room t b + (now - t) * b.rate
room_on t now b p q = omega (arith, refill_on b.last_time t now b.rate p q)

-- Nothing is drawn between two times.
pub room_at-later :
    (cap t now rate : ℕ) (o : Option Bucket)
    → t ≤ now
    → UpTo t rate o
    → room_at cap now o ≤ room_at cap t o + (now - t) * rate
room_at-later cap t now rate none le u = omega arith
room_at-later cap t now rate (some b) le u = rw (← u.1) (omega (arith, room_on t now b u.0 le))

pub UpTo-later : (t now rate : ℕ) (o : Option Bucket) → t ≤ now → UpTo t rate o → UpTo now rate o
UpTo-later t now rate none le u = tt
UpTo-later t now rate (some b) le u = (omega (arith, u.0), u.1)

module _ (parts t now : ℕ) (fresh : Bucket) where
  drawn-UpTo :
      (o : Option Bucket)
      → UpTo t fresh.rate o
      → UpTo now fresh.rate (some (allow parts now (or_fresh o fresh)).0)
  drawn-UpTo o u =
      let (same, at, _) = allow-keeps parts now (or_fresh o fresh) in
      (omega (arith, at), same ∙ rate_of o u)
    where
      rate_of : (o : Option Bucket) → UpTo t fresh.rate o → (or_fresh o fresh).rate ≡ fresh.rate
      rate_of none u = refl
      rate_of (some b) u = u.1

  drawn_le :
      (o : Option Bucket)
      → t ≤ now
      → fresh.last_time ≡ now
      → UpTo t fresh.rate o
      → room_at fresh.tokens now (some (allow parts now (or_fresh o fresh)).0)
          + cost parts (allow parts now (or_fresh o fresh)).1
        ≤ room_at fresh.tokens t o + (now - t) * fresh.rate
  drawn_le o le new u =
      let (same, at, _) = allow-keeps parts now (or_fresh o fresh) in
      let now_room = room_now (allow parts now (or_fresh o fresh)).0 now at in
      omega (arith, now_room, allow_le parts now (or_fresh o fresh), fresh_room o u)
    where
      room_now : (b : Bucket) (n : ℕ) → b.last_time ≡ n → room n b ≡ b.tokens
      room_now b n e = rw e (let z : n - n ≡ 0 = omega arith in rw (z, zero-mul) (omega arith))

      fresh_room :
          (o : Option Bucket)
          → UpTo t fresh.rate o
          → room now (or_fresh o fresh) ≤ room_at fresh.tokens t o + (now - t) * fresh.rate
      fresh_room none u = rw (room_now fresh now new) (omega arith)
      fresh_room (some b) u = room_at-later fresh.tokens t now fresh.rate (some b) le u

module _ (parts t now : ℕ) (fresh : Bucket) (key : Text) (m : Assoc Bucket) where
  pub lookup-draw_other :
      (j : Text) → text_eq key j ≡ false → lookup j (draw parts now fresh key m).0 ≡ lookup j m
  unfolding draw
  lookup-draw_other j ne = rw (lookup-insert, ne)

  pub lookup-draw :
      lookup key (draw parts now fresh key m).0
      ≡ some (allow parts now (or_fresh (lookup key m) fresh)).0
  unfolding draw
  lookup-draw = rw (lookup-insert, text_eq_refl)

  draw-allow : (draw parts now fresh key m).1 ≡ (allow parts now (or_fresh (lookup key m) fresh)).1
  unfolding draw
  draw-allow = refl

  pub UpTo-draw :
      UpTo t fresh.rate (lookup key m)
      → UpTo now fresh.rate (lookup key (draw parts now fresh key m).0)
  UpTo-draw u = rw lookup-draw (drawn-UpTo parts t now fresh (lookup key m) u)

  -- What a draw gives out and leaves is no more than there was, with what came in since.
  pub draw_le :
      t ≤ now
      → fresh.last_time ≡ now
      → UpTo t fresh.rate (lookup key m)
      → room_at fresh.tokens now (lookup key (draw parts now fresh key m).0)
          + cost parts (draw parts now fresh key m).1
        ≤ room_at fresh.tokens t (lookup key m) + (now - t) * fresh.rate
  draw_le le new u =
      rw (lookup-draw, draw-allow) (drawn_le parts t now fresh (lookup key m) le new u)
