-- ===== src/Transport/Answers.antt =====
-- Which answers of the server are taken for a result.
use zksync_python.Prelude.{
  ◌≡◌, refl, sym, ap, ◌∙◌, Option, none, some, Result, ok, err, ◌>>=◌, or_raise, key_error,
  response_error, ok-injective, >>=-eq-ok, ◌==◌, ==_iff, Bool-cases, inl, inr, ◌↔◌, Json, null,
  bool, int, str, arr, obj, Fields,
}
use zksync_python.Python.Text.{Text, text}
use zksync_python.Json.{lookup, item}
use zksync_python.Network.{Network}
use zksync_python.Transport.{
  HttpClient, HttpResponse, create_request, read_result, result_or_error, raise_response,
  read_response, http_request, answered,
}

-- The status is 200 and the body a dictionary with this result and without an error.
abbrev pub IsResult : HttpResponse → Json → Type 0
IsResult response result =
    (fields : Fields) × (response.status_code ≡ 200)
    × (response.json ≡ ok (obj fields))
    × (lookup (text "error") fields ≡ none)
    × (lookup (text "result") fields ≡ some result)

pub answered-eq-ok :
    {W A B : Type 0} (call : W → Result A × W) (read : A → Result B) {w w' : W} {b : B}
    → answered call read w ≡ (ok b, w')
    → (a : A) × (call w ≡ (ok a, w')) × (read a ≡ ok b)
answered-eq-ok {W} {A} {B} call read {w} {w'} {b} h = split (call w) refl h
  where
    split :
        (run : Result A × W)
        → call w ≡ run
        → ◌≡◌ {A = Result B × W} (run.0 >>= read, run.1) (ok b, w')
        → (a : A) × (call w ≡ (ok a, w')) × (read a ≡ ok b)
    split (ok a, s1) same h = (a, same ∙ ap (λ p. (ok a, p.1)) h, ap (λ p. p.0) h)
    split (err e, s1) same h = cc

read_result-eq-ok :
    (body result : Json)
    → read_result body ≡ ok result
    → (fields : Fields) × (body ≡ obj fields)
      × (lookup (text "error") fields ≡ none)
      × (lookup (text "result") fields ≡ some result)
unfolding read_result result_or_error raise_response
read_result-eq-ok (obj fields) result h =
    inverted (lookup (text "error") fields) (lookup (text "result") fields) refl refl h
  where
    no_result : (data_ : Json) → raise_response data_ ≡ ok result → ⊥
    no_result data_ h =
        let (code, _, h1) =
          >>=-eq-ok (item data_ (text "code"))
            (λ code. item data_ (text "message") >>= λ message. err (response_error code message))
            h in
        let (message, _, h2) =
          >>=-eq-ok (item data_ (text "message")) (λ message. err (response_error code message))
            h1 in
        cc

    inverted :
        (error answer : Option Json)
        → lookup (text "error") fields ≡ error
        → lookup (text "result") fields ≡ answer
        → result_or_error error fields ≡ ok result
        → (fields' : Fields) × (obj fields ≡ obj fields')
          × (lookup (text "error") fields' ≡ none)
          × (lookup (text "result") fields' ≡ some result)
    inverted (some data_) answer e a h = absurd (no_result data_ h)
    inverted none none e a h =
        let raised : err key_error ≡ ok result = ap (λ o. or_raise o key_error) (sym a) ∙ h in cc
    inverted none (some r) e a h =
        (fields, refl, e, a ∙ ap some (ok-injective (ap (λ o. or_raise o key_error) (sym a) ∙ h)))
read_result-eq-ok null result h = cc
read_result-eq-ok (bool b) result h = cc
read_result-eq-ok (int z) result h = cc
read_result-eq-ok (str s) result h = cc
read_result-eq-ok (arr xs) result h = cc

read_response-eq-ok :
    (response : HttpResponse) (result : Json)
    → read_response response ≡ ok result
    → IsResult response result
unfolding read_response
read_response-eq-ok response result h = elim (Bool-cases (response.status_code == 200)) [
  | inl accepted ↦
      let (body, parsed, read) = >>=-eq-ok response.json read_result (rw accepted at h) in
      let (fields, same, no_error, found) = read_result-eq-ok body result read in
      (fields, (==_iff response.status_code 200).0 accepted, parsed ∙ ap ok same, no_error, found)
  | inr refused ↦ cc (rw refused at h)
]

IsResult-read_response :
    (response : HttpResponse) (result : Json)
    → IsResult response result
    → read_response response ≡ ok result
unfolding read_response read_result result_or_error
IsResult-read_response response result (fields, accepted, parsed, no_error, found) =
    rw ((==_iff response.status_code 200).1 accepted, parsed, no_error, found) refl

module _ (client : HttpClient) (network : Network) where
  -- A request over HTTP returns a result exactly if the client's post of the request to the network's
  -- URL is answered with status 200 and a body that is a dictionary without the key "error" which
  -- holds that result under "result". The post happens once, and nothing else changes the world.
  pub http_request_answers :
      (method : Text) (params result : Json) (world world' : client.World)
      → (http_request client network method params world ≡ (ok result, world')) ↔ (
          (response : HttpResponse) × (client.post network.zksync_url
              (create_request method params)
              world
            ≡ (ok response, world'))
          × IsResult response result)
  unfolding http_request
  http_request_answers method params result world world' = (
    (λ h.
        let (response, posted, read) =
          answered-eq-ok (client.post network.zksync_url (create_request method params))
            read_response h in
        (response, posted, read_response-eq-ok response result read)),
    (λ (response, posted, is_result).
        ap (λ (run : Result HttpResponse × client.World). (run.0 >>= read_response, run.1)) posted
        ∙ ap (λ r. (r, world')) (IsResult-read_response response result is_result)),
  )
