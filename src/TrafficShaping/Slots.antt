-- ===== src/TrafficShaping/Slots.antt =====
-- The requests in flight that traffic_shaping.go counts.
use api_x.Base.{
  ℕ, suc, ◌+◌, ◌≤◌, ◌<◌, Text, true, some, List, [], ◌∷◌, length, ◌≡◌, refl, ◌∙◌, arith,
}
use api_x.Plugin.{ProxyRequest, ProxyResponse}
use api_x.TrafficShaping.{TrafficShaping, matches_path, rejected, on_request, on_response}

-- A call of a hook.
pub data Hook : Type 0 where
  on_req : ProxyRequest → Hook
  on_resp : ProxyRequest → ProxyResponse → Hook

-- Requests, each for a path that the plugin limits.
abbrev pub Asking : TrafficShaping → List ProxyRequest → Type 0
Asking p [] = Unit
Asking p (req ∷ reqs) = (matches_path p req ≡ true) × Asking p reqs

-- The configuration of the plugin, which no hook changes.
record SameConfig (p q : TrafficShaping) : Type 0 where
  limit : p.max_concurrent ≡ q.max_concurrent
  path : p.match_path ≡ q.match_path

module _ (status_text : ℕ → Text) where
  unfoldable pub hook : Hook → TrafficShaping → TrafficShaping
  unfolding on_request on_response
  hook (on_req req) p = (on_request status_text req p).0
  hook (on_resp req resp) p = (on_response req resp p).0

  unfoldable pub play : List Hook → TrafficShaping → TrafficShaping
  unfolding hook
  play [] p = p
  play (h ∷ hs) p = play hs (hook h p)

  hook-SameConfig : (h : Hook) (p : TrafficShaping) → SameConfig (hook h p) p
  unfolding hook
  hook-SameConfig (on_req req) p = ground arith
  hook-SameConfig (on_resp req resp) p = ground arith

  hook-within :
      (h : Hook) (p : TrafficShaping)
      → p.inflight ≤ p.max_concurrent
      → (hook h p).inflight ≤ (hook h p).max_concurrent
  unfolding hook
  hook-within (on_req req) p le = ground arith
  hook-within (on_resp req resp) p le = ground arith

  -- The answers to requests none of which comes to a response.
  unfoldable pub unanswered : List ProxyRequest → TrafficShaping → TrafficShaping
  unfolding on_request
  unanswered [] p = p
  unanswered (req ∷ reqs) p = unanswered reqs (on_request status_text req p).0

  full-refuses :
      (req : ProxyRequest) (p : TrafficShaping)
      → 0 < p.max_concurrent
      → p.max_concurrent ≤ p.inflight
      → (on_request status_text req p).0 ≡ p
  unfolding on_request
  full-refuses req p pos full = ground arith

  full-stays :
      (reqs : List ProxyRequest) (p : TrafficShaping)
      → 0 < p.max_concurrent
      → p.max_concurrent ≤ p.inflight
      → unanswered reqs p ≡ p
  unfolding unanswered
  full-stays [] p pos full = refl
  full-stays (req ∷ reqs) p pos full =
      let same : (on_request status_text req p).0 ≡ p = full-refuses req p pos full in
      rw same (full-stays reqs p pos full)

  play-within :
      (hs : List Hook) (p : TrafficShaping)
      → p.inflight ≤ p.max_concurrent
      → (play hs p).inflight ≤ (play hs p).max_concurrent
  unfolding play
  play-within [] p le = le
  play-within (h ∷ hs) p le = play-within hs (hook h p) (hook-within h p le)

  on_request-SameConfig :
      (req : ProxyRequest) (p : TrafficShaping) → SameConfig p (on_request status_text req p).0
  unfolding on_request
  on_request-SameConfig req p = ground arith

  SameConfig-trans : {p q r : TrafficShaping} → SameConfig p q → SameConfig q r → SameConfig p r
  SameConfig-trans a b = record { limit = a.limit ∙ b.limit; path = a.path ∙ b.path }

  unanswered-SameConfig :
      (reqs : List ProxyRequest) (p : TrafficShaping) → SameConfig p (unanswered reqs p)
  unfolding unanswered
  unanswered-SameConfig [] p = record { limit = refl; path = refl }
  unanswered-SameConfig (req ∷ reqs) p =
      SameConfig-trans (on_request-SameConfig req p)
        (unanswered-SameConfig reqs (on_request status_text req p).0)

  matches_path-cong :
      (p q : TrafficShaping) (req : ProxyRequest)
      → SameConfig p q
      → matches_path q req ≡ matches_path p req
  unfolding matches_path
  matches_path-cong p q req same = rw (same.path) refl

  Asking-cong :
      (reqs : List ProxyRequest) (p q : TrafficShaping)
      → SameConfig p q
      → Asking p reqs
      → Asking q reqs
  Asking-cong [] p q same asking = asking
  Asking-cong (req ∷ reqs) p q same (m, asking) =
      (matches_path-cong p q req same ∙ m, Asking-cong reqs p q same asking)

  -- A request takes a slot if there is one left.
  takes :
      (req : ProxyRequest) (p : TrafficShaping) (n : ℕ)
      → matches_path p req ≡ true
      → 0 < p.max_concurrent
      → p.max_concurrent ≤ p.inflight + suc n
      → p.max_concurrent ≤ (on_request status_text req p).0.inflight + n
  unfolding on_request
  takes req p n m pos enough = ground arith

  filled :
      (reqs : List ProxyRequest) (p : TrafficShaping)
      → Asking p reqs
      → 0 < p.max_concurrent
      → p.max_concurrent ≤ p.inflight + length reqs
      → p.max_concurrent ≤ (unanswered reqs p).inflight
  unfolding unanswered
  filled [] p asking pos enough = omega arith
  filled (req ∷ reqs) p (m, asking) pos enough =
      let p' = (on_request status_text req p).0 in
      let same : SameConfig p p' = on_request-SameConfig req p in
      let e : p.max_concurrent ≡ p'.max_concurrent = same.limit in
      let pos' : 0 < p'.max_concurrent = omega arith in
      let taken = takes req p (length reqs) m pos enough in
      let left : p'.max_concurrent ≤ p'.inflight + length reqs = omega arith in
      let rest = filled reqs p' (Asking-cong reqs p p' same asking) pos' left in omega arith

  rejects :
      (req : ProxyRequest) (p : TrafficShaping)
      → matches_path p req ≡ true
      → 0 < p.max_concurrent
      → p.max_concurrent ≤ p.inflight
      → on_request status_text req p ≡ (p, some (rejected status_text p req))
  unfolding on_request
  rejects req p m pos full = ground arith

  -- A request gives its slot back only in `on_response`. After as many requests for a limited path as
  -- there were slots left, each rejected or without a response, every further request for such a path is
  -- rejected and changes nothing.
  pub slots_lost :
      (reqs : List ProxyRequest) (p : TrafficShaping) (req : ProxyRequest)
      → 0 < p.max_concurrent
      → Asking p reqs
      → matches_path p req ≡ true
      → p.max_concurrent ≤ p.inflight + length reqs
      → on_request status_text req (unanswered reqs p)
        ≡ (unanswered reqs p, some (rejected status_text (unanswered reqs p) req))
  slots_lost reqs p req pos asking m enough =
      let q = unanswered reqs p in
      let same : SameConfig p q = unanswered-SameConfig reqs p in
      let e : p.max_concurrent ≡ q.max_concurrent = same.limit in
      let full = filled reqs p asking pos enough in
      rejects req q (matches_path-cong p q req same ∙ m) (omega arith) (omega arith)
