-- ===== src/Client/Tests.antt =====
-- Witnesses and tests of the client.
use mathlib.Core.List.{lookup}
use thruk_mcp.Cache
use thruk_mcp.Cache.{TtlCache}
use thruk_mcp.OrderedDict.{ok}
use thruk_mcp.Prelude.{
  ℕ, suc, ◌*◌, ltb, String, ◌≡◌, refl, ◌==◌, true, false, Option, none, some, List, [], ◌∷◌, arith,
  take, drop, nat_eq, if◌then◌else◌, String_discrete,
}
use thruk_mcp.Prelude.Text.{upper}
use thruk_mcp.Client.Background.{
  Polled, gave, poll, settle_poll, finish, is_redirect, ComesTo, poll-ComesTo,
}
use thruk_mcp.Client.Fallback.{
  Answer, rows, failed, Site, pieces, get_with_fallback, all_rows, online, offline, no_site, direct,
  all_warnings, get_with_fallback-pieces,
}
use thruk_mcp.Client.Pages.{Page, rows, finished, get_all, pages, yield_rows, get_all-take}
use thruk_mcp.Client.Requests.{
  Response, Reply, request_error, answered, payload, Request, CacheKey, attempts, settle, judge,
  judge_reply, is_retry_status, is_cacheable, cacheable_paths, is_one_of, request, Decides,
  attempts-Decides_first, request-cached,
}

abbrev hosts : List ℕ
hosts = 10 ∷ 11 ∷ 12 ∷ 13 ∷ 14 ∷ 15 ∷ 16 ∷ []

abbrev served : ℕ → ℕ → Page ℕ
served limit offset = Page.rows (take limit (drop offset hosts))

get_all-take_example : get_all 2 5 served 1 ≡ (take 5 (drop 1 hosts), finished)
get_all-take_example = get_all-take 2 5 served hosts 1 (λ limit o. refl) (omega arith)

get-all_five : get_all 2 5 served 1 ≡ (11 ∷ 12 ∷ 13 ∷ 14 ∷ 15 ∷ [], finished)
unfolding get_all pages yield_rows take drop
get-all_five = refl

abbrev response : ℕ → Response ℕ
response status = record { status = status; is_empty = false; text = "{}"; json = some (some 7) }

-- a connection error, a 503, and then the answer
abbrev flaky : ℕ → Reply ℕ
flaky attempt =
    if nat_eq attempt 0
    then request_error "refused"
    else if nat_eq attempt 1
    then answered (response 503)
    else answered (response 200)

attempts-Decides_first_example :
    (k : ℕ) × Decides flaky 3 0 k × (attempts flaky 3 4 0 ≡ (judge_reply (flaky k), suc k))
attempts-Decides_first_example = attempts-Decides_first flaky 3

attempts-three : attempts flaky 3 4 0 ≡ (payload (some 7), 3)
unfolding attempts settle judge is_retry_status
attempts-three = refl

abbrev key_discrete : Discrete CacheKey
key_discrete = hlevel String_discrete

abbrev sites : Request
sites = record { method = "get"; path = "/sites"; params = []; backends = none; cache_ttl = none }

abbrev empty_cache : TtlCache CacheKey (Option ℕ)
empty_cache = Cache.init 15 256

sites-cacheable : is_cacheable sites ≡ true
unfolding is_cacheable is_one_of cacheable_paths upper
sites-cacheable = refl

request-cached_example :
    (c₁ c₂ : TtlCache CacheKey (Option ℕ)) × (request key_discrete "http://localhost/thruk" [] 3
        flaky sites 100 101 empty_cache
      ≡ ok (c₁, payload (some 7), 3))
    × (request key_discrete "http://localhost/thruk" [] 3 flaky sites 110 111 c₁
        ≡ ok (c₂, payload (some 7), 0))
unfolding lookup
request-cached_example =
    request-cached key_discrete "http://localhost/thruk" [] 3 flaky flaky sites 100 101 110 111
      empty_cache 7 3 (record { positive = omega arith; bounded = omega arith; distinct = tt })
      sites-cacheable refl attempts-three (omega arith)

-- two sites, of which one does not answer
abbrev reply_of : String → Answer ℕ String
reply_of bid = if bid == "paris" then rows (1 ∷ 2 ∷ []) else failed "timeout"

abbrev ask : Option (List String) → Answer ℕ String
ask (some (bid ∷ [])) = reply_of bid
ask _ = failed "502"

abbrev two_sites : List Site
two_sites =
    record { id = some "paris"; connected = true }
    ∷ record { id = some "nice"; connected = false }
    ∷ record { id = some "lyon"; connected = true }
    ∷ []

get_with_fallback-pieces_example :
    (get_with_fallback ask (rows two_sites) none
      ≡ pieces (all_rows ask ("paris" ∷ "lyon" ∷ [])) (all_warnings ask ("paris" ∷ "lyon" ∷ [])))
    × (get_with_fallback ask (rows two_sites) (some ("lyon" ∷ []))
        ≡ direct ask (ask (some ("lyon" ∷ []))))
get_with_fallback-pieces_example =
    get_with_fallback-pieces ask two_sites ("lyon" ∷ []) "502" "paris" ("lyon" ∷ []) refl
      (online refl refl (offline refl (online refl refl no_site)))

rows-paris : all_rows ask ("paris" ∷ "lyon" ∷ []) ≡ 1 ∷ 2 ∷ []
rows-paris = refl

-- a job that is done at the third poll
abbrev job_reply : ℕ → Reply ℕ
job_reply i = answered (record {
  status = if ltb i 2 then 302 else 200;
  is_empty = false;
  text = "";
  json = some (some 7);
})

abbrev every_two : ℕ → ℕ
every_two i = i * 2

poll-ComesTo_example :
    (v : Polled ℕ) × (poll job_reply every_two 4 3 0 ≡ some v) × ComesTo job_reply every_two 4 0 v
poll-ComesTo_example = poll-ComesTo job_reply every_two 4 2 2 0 (λ j. omega arith) (omega arith)

poll_three : poll job_reply every_two 5 3 0 ≡ some (gave (some 7))
unfolding poll settle_poll finish is_redirect
poll_three = refl
