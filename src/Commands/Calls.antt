-- ===== src/Commands/Calls.antt =====
-- The requests that a tool of src/thruk_mcp/tools/commands.py makes through its client, and what
-- it gets: `await client.get(...)`, `asyncio.gather`. The client is an argument: what it answers
-- to a request may depend on all requests before it.
use thruk_mcp.Audit.{Json}
use thruk_mcp.OrderedDict.{OrderedDict}
use thruk_mcp.Prelude.{
  String, ◌≡◌, refl, sym, ap, ◌∙◌, Option, List, [], ◌∷◌, ◌++◌, append_assoc, append-nil, arith,
  length,
}

-- A ThrukError, which the tools expect, or any other exception, by their texts.
pub data Fault : Type 0 where
  thruk_error : String → Fault
  other_error : String → Fault

-- `str(exc)`
unfoldable pub fault_text : Fault → String
fault_text (thruk_error m) = m
fault_text (other_error m) = m

pub data Answer (A : Type 0) : Type 0 where
  returned : A → Answer A
  raised : Fault → Answer A

-- A dict of parameters or of a payload, and the chosen backends.
abbrev pub Dict : Type 0
Dict = OrderedDict String Json

abbrev pub Backends : Type 0
Backends = Option (List String)

-- `client.get`, `client.get_all` and `client.post`; a post without a payload has none.
pub data ClientCall : Type 0 where
  get : String → Dict → Backends → ClientCall
  get_rows : String → Dict → Backends → ClientCall
  post : String → Dict → Backends → ClientCall

-- The client: it answers a request after those that went before.
abbrev pub Client : Type 0
Client = List ClientCall → ClientCall → Answer Json

-- What a tool does: from the requests so far to its end and the requests then.
abbrev pub Act : Type 0 → Type 0
Act A = List ClientCall → Answer A × List ClientCall

unfoldable pub after :
    {A B : Type 0} → Answer A × List ClientCall → (A → Act B) → Answer B × List ClientCall
after (returned a, calls) f = f a calls
after (raised e, calls) f = (raised e, calls)

-- A step that came to a value had one before it.
pub after-eq-returned :
    {A B : Type 0} (x : Answer A × List ClientCall) (f : A → Act B) (b : B)
    → (after x f).0 ≡ returned b
    → (a : A) × (x.0 ≡ returned a) × ((f a x.1).0 ≡ returned b) × ((after x f).1 ≡ (f a x.1).1)
unfolding after
after-eq-returned (returned a, t) f b h = (a, refl, h, refl)
after-eq-returned (raised e, t) f b h = cc

pub returned_inj : {A : Type 0} {a b : A} → returned a ≡ returned b → a ≡ b
returned_inj h = cc

infixl 5 ◌>>=◌
abbrev pub ◌>>=◌ : {A B : Type 0} → Act A → (A → Act B) → Act B
(m >>= f) calls = after (m calls) f

abbrev pub done : {A : Type 0} → A → Act A
done a calls = (returned a, calls)

abbrev pub throw : {A : Type 0} → Fault → Act A
throw e calls = (raised e, calls)

module _ (client : Client) where
  -- one request
  abbrev pub send_call : ClientCall → Act Json
  send_call c calls = (client calls c, calls ++ c ∷ [])

  -- the requests of coroutines that run at once: each is sent, whatever the others get
  unfoldable pub send_each : List ClientCall → List ClientCall → List (Answer Json)
  send_each [] calls = []
  send_each (c ∷ cs) calls = client calls c ∷ send_each cs (calls ++ c ∷ [])

  -- `asyncio.gather(*coros, return_exceptions=True)`
  unfoldable pub gather_outcomes : List ClientCall → Act (List (Answer Json))
  unfolding send_each
  gather_outcomes cs calls = (returned (send_each cs calls), calls ++ cs)

  pub length-send_each : (cs calls : List ClientCall) → length (send_each cs calls) ≡ length cs
  unfolding send_each
  length-send_each [] calls = refl
  length-send_each (c ∷ cs) calls = omega (arith, length-send_each cs (calls ++ c ∷ []))

  pub send_each-append :
      (cs ds calls : List ClientCall)
      → send_each (cs ++ ds) calls ≡ send_each cs calls ++ send_each ds (calls ++ cs)
  unfolding send_each
  send_each-append [] ds calls = ap (send_each ds) (sym (append-nil calls))
  send_each-append (c ∷ cs) ds calls =
      ap (λ l. client calls c ∷ l)
        (send_each-append cs ds (calls ++ c ∷ [])
          ∙ ap (λ l. send_each cs (calls ++ c ∷ []) ++ send_each ds l)
              (append_assoc calls (c ∷ []) cs))

-- the results of a `gather` without `return_exceptions`, or the first exception among them
unfoldable pub first_fault : {A : Type 0} → List (Answer A) → Answer (List A)
first_fault [] = returned []
first_fault (raised e ∷ l) = raised e
first_fault (returned a ∷ l) = elim (first_fault l) [
  | returned rest ↦ returned (a ∷ rest)
  | raised e ↦ raised e
]

-- `asyncio.gather(*coros)`
unfoldable pub gather : {A : Type 0} → Act (List (Answer A)) → Act (List A)
gather m calls = after (m calls) (λ l all. (first_fault l, all))
