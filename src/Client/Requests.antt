-- ===== src/Client/Requests.antt =====
-- `request` of src/thruk_mcp/client.py: its retries, and its use of the cache.
use text.Mathlib.Text.{starts_with}
use thruk_mcp.Cache
use thruk_mcp.Cache.{TtlCache}
use thruk_mcp.Cache.Steps.{IsValid, lifetime, answer, after_get, get-after_get, after_get-IsValid}
use thruk_mcp.Cache.History.{get-set_self}
use thruk_mcp.OrderedDict.{Result, ok, ◌>>=◌}
use thruk_mcp.Prelude.{
  ℕ, zero, suc, ◌+◌, ◌-◌, ◌≤◌, ◌<◌, String, ◌==◌, ◌≡◌, refl, ap, ◌∙◌, Bool, true, false, ◌&&◌, ◌||◌,
  ◌⊎◌, inl, inr, Option, none, some, List, [], ◌∷◌, arith, leb, ltb, nat_eq, if◌then◌else◌,
  Bool-cases, ltb_of_lt,
}
use thruk_mcp.Prelude.Text.{join, upper}

-- What the transport gives: an `httpx.RequestError` or a response. Of a response's body, `is_empty`
-- says that there is none, and `json` is what it decodes to, where it does; `null` is none.
pub record Response {ℓ} (J : Type ℓ) : Type ℓ where
  pub status : ℕ
  pub is_empty : Bool
  pub text : String
  pub json : Option (Option J)

pub data Reply {ℓ} (J : Type ℓ) : Type ℓ where
  request_error : String → Reply J
  answered : Response J → Reply J

-- The ThrukErrors, with what their messages are made of.
pub data ThrukError : Type 0 where
  failed_to_reach : String → ThrukError
  http_status : ℕ → String → ThrukError
  invalid_json : ThrukError
  unreachable : ThrukError

-- How an attempt that is not retried ends: only a decoded payload goes to the cache.
pub data Verdict {ℓ} (J : Type ℓ) : Type ℓ where
  raised : ThrukError → Verdict J
  no_content : Verdict J
  payload : Option J → Verdict J

-- `RETRY_STATUS`
unfoldable pub is_retry_status : ℕ → Bool
is_retry_status s = nat_eq s 429 || nat_eq s 500 || nat_eq s 502 || nat_eq s 503 || nat_eq s 504

unfoldable pub cacheable_paths : List String
cacheable_paths =
    "/sites" ∷ "/processinfo" ∷ "/hosts/stats" ∷ "/hosts/totals" ∷ "/services/stats"
    ∷ "/services/totals" ∷ "/contacts" ∷ "/contactgroups" ∷ "/timeperiods" ∷ "/commands" ∷ []

unfoldable pub is_one_of : String → List String → Bool
is_one_of s [] = false
is_one_of s (t ∷ l) = s == t || is_one_of s l

-- `_url`
unfoldable pub url : String → List String → String → Option (List String) → String
url base_url default_backends path backends =
    let rooted : String = if starts_with path "/" then path else join "" ("/" ∷ path ∷ []) in
    let chosen : List String = elim backends [ none ↦ default_backends | some l ↦ l ] in
    let prefix : String = elim chosen [
      | [] ↦ "/r"
      | b ∷ l ↦ join "" ("/r/sites/" ∷ join "," (b ∷ l) ∷ [])
    ] in
    join "" (base_url ∷ prefix ∷ rooted ∷ [])

module _ {J : Type 0} where
  -- the end of an attempt whose response is not retried
  unfoldable pub judge : Response J → Verdict J
  judge r =
      if leb 400 r.status
      then raised (http_status r.status r.text)
      else if r.is_empty
      then no_content
      else elim r.json [ none ↦ raised invalid_json | some p ↦ payload p ]

  unfoldable pub judge_reply : Reply J → Verdict J
  unfolding judge
  judge_reply (request_error e) = raised (failed_to_reach e)
  judge_reply (answered r) = judge r

  -- what is tried again, while an attempt is left
  unfoldable pub is_transient : Reply J → Bool
  unfolding is_retry_status
  is_transient (request_error e) = true
  is_transient (answered r) = is_retry_status r.status

  -- the body of the loop: the reply of this attempt, whether another is left, and what that gives
  unfoldable pub settle : Reply J → Bool → Verdict J × ℕ → Verdict J × ℕ
  unfolding judge is_retry_status
  settle (request_error e) left (verdict, sent) =
      if left then (verdict, suc sent) else (raised (failed_to_reach e), 1)
  settle (answered r) left (verdict, sent) =
      if is_retry_status r.status && left then (verdict, suc sent) else (judge r, 1)

  -- `for attempt in range(self.max_retries + 1)`, with the number of requests sent; the reply of the
  -- transport depends on the attempt
  unfoldable pub attempts : (ℕ → Reply J) → ℕ → ℕ → ℕ → Verdict J × ℕ
  unfolding settle
  attempts send max_retries zero attempt = (raised unreachable, 0)
  attempts send max_retries (suc left) attempt =
      settle (send attempt) (ltb attempt max_retries) (attempts send max_retries left (suc attempt))

-- The parameters of a call; `params` are the items of the dict in their sorted order.
pub record Request : Type 0 where
  pub method : String
  pub path : String
  pub params : List (String × String)
  pub backends : Option (List String)
  pub cache_ttl : Option ℕ

abbrev pub CacheKey : Type 0
CacheKey = String × List (String × String)

unfoldable pub is_cacheable : Request → Bool
unfolding is_one_of cacheable_paths
is_cacheable r =
    upper r.method == "GET"
    && (elim r.cache_ttl [ some _ ↦ true | none ↦ is_one_of r.path cacheable_paths ])

unfoldable pub key_of : String → List String → Request → CacheKey
unfolding url
key_of base_url default_backends r = (url base_url default_backends r.path r.backends, r.params)

module _ {J : Type 0} (dec : Discrete CacheKey) (base_url : String) (default_backends : List String)
    (max_retries : ℕ) where
  -- the attempts, and the payload put into the cache at the time `later`
  unfoldable pub fetch :
      (ℕ → Reply J)
      → Request
      → ℕ
      → TtlCache CacheKey (Option J)
      → Result (TtlCache CacheKey (Option J) × Verdict J × ℕ)
  fetch send r later c =
      let (verdict, sent) = attempts send max_retries (suc max_retries) 0 in
      elim verdict [
        | raised e ↦ ok (c, raised e, sent)
        | no_content ↦ ok (c, no_content, sent)
        | payload p ↦
            if is_cacheable r
            then (do
              c' ← Cache.set dec (key_of base_url default_backends r) p r.cache_ttl later c
              ok (c', payload p, sent))
            else ok (c, payload p, sent)
      ]

  -- `request`, called at the time `now`; a payload that is None counts as a miss
  unfoldable pub request :
      (ℕ → Reply J)
      → Request
      → ℕ
      → ℕ
      → TtlCache CacheKey (Option J)
      → Result (TtlCache CacheKey (Option J) × Verdict J × ℕ)
  unfolding fetch
  request send r now later c =
      if is_cacheable r
      then (do
        (c', cached) ← Cache.get dec (key_of base_url default_backends r) now c
        elim cached [
          | none ↦ fetch send r later c'
          | some none ↦ fetch send r later c'
          | some (some p) ↦ ok (c', payload (some p), 0)
        ])
      else fetch send r later c

module _ {J : Type 0} (send : ℕ → Reply J) (max_retries : ℕ) where
  -- The attempt decides: those before it got a transient reply, and its own is not one, or no attempt
  -- is left.
  pub record Decides (from k : ℕ) : Type 0 where
    pub not_before : from ≤ k
    pub not_after : k ≤ max_retries
    pub retried : (j : ℕ) → from ≤ j → j < k → is_transient (send j) ≡ true
    pub last : (k ≡ max_retries) ⊎ (is_transient (send k) ≡ false)

  settle-again :
      (r : Reply J) (left : Bool) (rest : Verdict J × ℕ)
      → is_transient r && left ≡ true
      → settle r left rest ≡ (rest.0, suc rest.1)
  unfolding settle is_transient
  settle-again (request_error e) left rest h = ground (arith, h)
  settle-again (answered r) left rest h = ground (arith, h)

  settle-last :
      (r : Reply J) (left : Bool) (rest : Verdict J × ℕ)
      → is_transient r && left ≡ false
      → settle r left rest ≡ (judge_reply r, 1)
  unfolding settle is_transient judge_reply
  settle-last (request_error e) left rest h = ground (arith, h)
  settle-last (answered r) left rest h = ground (arith, h)

  goes_on :
      (attempt k : ℕ)
      → is_transient (send attempt) ≡ true
      → Decides (suc attempt) k
      → Decides attempt k
  goes_on attempt k transient d = record {
    not_before = omega (arith, d.not_before);
    not_after = d.not_after;
    retried = λ j le lt. ground (arith, le, lt, d.retried j, ap (λ i. is_transient (send i)));
    last = d.last;
  }

  attempts-Decides :
      (left attempt : ℕ)
      → left + attempt ≡ suc max_retries
      → 0 < left
      → (k : ℕ) × Decides attempt k
        × (attempts send max_retries left attempt ≡ (judge_reply (send k), suc (k - attempt)))
  unfolding attempts
  attempts-Decides zero attempt e h = absurd (omega (arith, h))
  attempts-Decides (suc left) attempt e h =
      elim (Bool-cases (is_transient (send attempt) && ltb attempt max_retries)) [
        | inl on ↦
            let (k, d, eq) =
              attempts-Decides left (suc attempt) (omega (arith, e)) (ground (arith, e, on)) in
            (
              k,
              goes_on attempt k (ground (arith, on)) d,
              settle-again (send attempt) (ltb attempt max_retries)
                    (attempts send max_retries left (suc attempt)) on
                  ∙ ap (λ p. (p.0, suc p.1)) eq
                  ∙ ap (λ n. (judge_reply (send k), suc n)) (omega (arith, d.not_before)),
            )
        | inr off ↦ (
          attempt,
          record {
            not_before = omega arith;
            not_after = omega (arith, e);
            retried = λ j le lt. absurd (omega (arith, le, lt));
            last = ground (arith, off, e);
          },
          settle-last (send attempt) (ltb attempt max_retries)
                (attempts send max_retries left (suc attempt)) off
              ∙ ap (λ n. (judge_reply (send attempt), suc n)) (omega arith),
        )
      ]

  -- A call's verdict is what the reply to one of its attempts means: the attempts before it all got a
  -- request error or a status that is retried, and either its reply is not such a one or it is the
  -- last attempt, the one numbered `max_retries`; nothing is sent after it.
  pub attempts-Decides_first :
      (k : ℕ) × Decides 0 k
      × (attempts send max_retries (suc max_retries) 0 ≡ (judge_reply (send k), suc k))
  attempts-Decides_first =
      let (k, d, eq) = attempts-Decides (suc max_retries) 0 (omega arith) (omega arith) in
      (k, d, eq ∙ ap (λ n. (judge_reply (send k), suc n)) (omega arith))

module _ {J : Type 0} (dec : Discrete CacheKey) (base_url : String) (default_backends : List String)
    (max_retries : ℕ) where
  fetch-payload :
      (send : ℕ → Reply J) (r : Request) (later n : ℕ) (c c₁ : TtlCache CacheKey (Option J))
      (p : Option J)
      → is_cacheable r ≡ true
      → attempts send max_retries (suc max_retries) 0 ≡ (payload p, n)
      → Cache.set dec (key_of base_url default_backends r) p r.cache_ttl later c ≡ ok c₁
      → fetch dec base_url default_backends max_retries send r later c ≡ ok (c₁, payload p, n)
  unfolding fetch
  fetch-payload send r later n c c₁ p cacheable got put =
      rw (got, fetch)
        (rw (cacheable, put) (ap (λ (q : Verdict J × ℕ). ok (c₁, payload p, q.1)) got))

  -- A cacheable call that finds nothing in a valid cache and gets a payload returns it, and the same
  -- call made again before the payload's lifetime has passed returns it too and sends nothing.
  pub request-cached :
      (send send' : ℕ → Reply J) (r : Request) (now later now' later' : ℕ)
      (c : TtlCache CacheKey (Option J)) (p : J) (n : ℕ)
      → IsValid dec c
      → is_cacheable r ≡ true
      → answer dec (key_of base_url default_backends r) now c.store ≡ none
      → attempts send max_retries (suc max_retries) 0 ≡ (payload (some p), n)
      → now' < later + lifetime dec r.cache_ttl c
      → (c₁ c₂ : TtlCache CacheKey (Option J)) × (request dec base_url default_backends max_retries
            send r now later c
          ≡ ok (c₁, payload (some p), n))
        × (request dec base_url default_backends max_retries send' r now' later' c₁
            ≡ ok (c₂, payload (some p), 0))
  unfolding request
  request-cached send send' r now later now' later' c p n valid cacheable missed got fresh =
      let k = key_of base_url default_backends r in
      let c₀ : TtlCache CacheKey (Option J) = record c { store = after_get dec k now c.store } in
      let (c₁, c₂, put, hit) =
        get-set_self dec c₀ k (some p) r.cache_ttl later now'
          (after_get-IsValid dec k now c valid) in
      (
        c₁,
        c₂,
        rw (cacheable, get-after_get dec k now c, missed)
            (fetch-payload send r later n c₀ c₁ (some p) cacheable got put),
        rw (cacheable, hit, ltb_of_lt now' (later + lifetime dec r.cache_ttl c) fresh) refl,
      )
