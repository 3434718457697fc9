-- ===== src/Transport.antt =====
-- zksync_sdk/transport: JSON-RPC over HTTP. The client of the httpx package is a parameter.
pub mod Answers
use zksync_python.Prelude.{
  ℕ, pos, [], ◌∷◌, Option, none, some, Result, ok, err, ◌>>=◌, or_raise, type_error, key_error,
  provider_error, response_error, ◌==◌, if◌then◌else◌, Json, null, bool, int, str, arr, obj, Fields,
  object,
}
use zksync_python.Python.Text.{Text, text}
use zksync_python.Json.{lookup, item}
use zksync_python.Network.{Network}

-- `JsonRPCTransport`: what a request for a method with parameters is answered.
pub record Transport : Type 1 where
  pub World : Type 0
  pub request : Text → Json → World → Result Json × World

-- `create_request`
unfoldable pub create_request : Text → Json → Json
create_request method params = object (
    (text "id", int (pos 1))
    ∷ (text "jsonrpc", str (text "2.0"))
    ∷ (text "method", str method)
    ∷ (text "params", params)
    ∷ [])

-- An answer of the server. Its body need not be JSON: `response.json()` may raise.
pub record HttpResponse : Type 0 where
  pub status_code : ℕ
  pub json : Result Json

-- `client.post(url, json=…)` of an `httpx.AsyncClient`
pub record HttpClient : Type 1 where
  pub World : Type 0
  pub post : Text → Json → World → Result HttpResponse × World

abbrev pub status_ok : ℕ
status_ok = 200

-- `raise ResponseError(data['code'], data['message'])`
unfoldable pub raise_response : Json → Result Json
raise_response data_ = do
  code ← item data_ (text "code")
  message ← item data_ (text "message")
  err (response_error code message)

unfoldable pub result_or_error : Option Json → Fields → Result Json
result_or_error (some data_) fields = raise_response data_
result_or_error none fields = or_raise (lookup (text "result") fields) key_error

-- What is read from the body. One that is no dictionary raises a TypeError at the test for "error"
-- or at the index that follows it.
unfoldable pub read_result : Json → Result Json
read_result (obj fields) = result_or_error (lookup (text "error") fields) fields
read_result null = err type_error
read_result (bool b) = err type_error
read_result (int z) = err type_error
read_result (str s) = err type_error
read_result (arr xs) = err type_error

unfoldable pub read_response : HttpResponse → Result Json
read_response response =
    if response.status_code == status_ok
    then response.json >>= read_result
    else err (provider_error response.status_code)

-- A call, and what is made of its answer.
abbrev pub answered : {W A B : Type 0} → (W → Result A × W) → (A → Result B) → W → Result B × W
answered call read world = let (answer, world') = call world in (answer >>= read, world')

module _ (client : HttpClient) (network : Network) where
  -- `HttpJsonRPCTransport.request`
  unfoldable pub http_request : Text → Json → client.World → Result Json × client.World
  http_request method params =
      answered (client.post network.zksync_url (create_request method params)) read_response

  -- `HttpJsonRPCTransport(network)`
  abbrev pub http_transport : Transport
  http_transport = record { World = client.World; request = http_request }
