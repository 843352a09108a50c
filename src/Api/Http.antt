-- ===== src/Api/Http.antt =====
-- Requests, and `http.ResponseWriter` as the handlers use it.
use shardstore.Common.{
  ℕ, Bytes, List, [], ◌∷◌, ◌++◌, codes, ℤ, Option, none, some, String, Bool, true, false,
}
use shardstore.Common.Digits.{format_int}
use shardstore.Common.Assoc.{lookup, insert, bytes_eq}
use shardstore.Api.Types.{
  S3ErrorResponse, CreateMultipartUploadResult, CompleteMultipartUploadResult, ListObjectsResult,
}

-- What the handlers read of a request, `id` for its context. A header that is not there is empty.
pub record Request : Type 0 where
  pub method : Bytes
  pub query : List (Bytes × Bytes)
  pub path : Bytes
  pub range : Bytes
  pub content_length : ℤ
  pub body : Bytes
  pub id : Option Bytes

-- `r.URL.Query().Get(name)`
abbrev pub or_empty : Option Bytes → Bytes
or_empty none = []
or_empty (some v) = v

-- `WithRequestID` and `RequestID` of internal/logging/logging.go
abbrev pub with_request_id : Bytes → Request → Request
with_request_id id r = record r { id = some id }

abbrev pub request_id : Request → Bytes
request_id r = or_empty r.id

unfoldable pub query_get : String → Request → Bytes
query_get name r = or_empty (lookup (codes name) r.query)

-- `healthResponse`
pub record HealthResponse : Type 0 where
  pub status : Bytes
  pub node : Bytes

-- What goes to a response's body: bytes, or a document, which encoding/xml prints and encoding/json
-- for the health check.
pub data Chunk : Type 0 where
  raw : Bytes → Chunk
  error_document : S3ErrorResponse → Chunk
  upload_created : CreateMultipartUploadResult → Chunk
  upload_completed : CompleteMultipartUploadResult → Chunk
  health_status : HealthResponse → Chunk
  listing : ListObjectsResult → Chunk

-- The header map, the status and the headers that were sent, the body, and whether the handler
-- panicked, upon which net/http drops the connection.
pub record Writer : Type 0 where
  pub headers : List (Bytes × Bytes)
  pub sent : Option (ℕ × List (Bytes × Bytes))
  pub body : List Chunk
  pub aborted : Bool

abbrev pub new_writer : Writer
new_writer = record { headers = []; sent = none; body = []; aborted = false }

-- `w.Header().Set`: the map changes also when the headers are sent already.
abbrev pub set_header : String → Bytes → Writer → Writer
set_header name value w = record w { headers = insert (codes name) value w.headers }

-- `w.WriteHeader`: only the first call counts, and it sends the headers as they are.
abbrev pub sent_now :
    Option (ℕ × List (Bytes × Bytes)) → ℕ → List (Bytes × Bytes) → Option (ℕ × List (Bytes × Bytes))
sent_now none status headers = some (status, headers)
sent_now (some x) status headers = some x

abbrev pub write_header : ℕ → Writer → Writer
write_header status w = record w { sent = sent_now w.sent status w.headers }

-- `w.Write`: without a status before it, the status is 200.
abbrev pub write : Chunk → Writer → Writer
write c w = record w { sent = sent_now w.sent 200 w.headers; body = w.body ++ c ∷ [] }

abbrev pub abort : Writer → Writer
abort w = record w { aborted = true }

-- `writeXMLError`. The node id of the document is left out.
abbrev pub write_xml_error : ℕ → String → String → Request → Writer → Writer
write_xml_error status code message r w =
    write
      (error_document
        (record { code = code; message = message; resource = r.path; request_id = request_id r }))
      (write_header status (set_header "Content-Type" (codes "application/xml") w))

-- `writeXML`
abbrev pub write_xml : ℕ → Chunk → Writer → Writer
write_xml status c w =
    write c (write_header status (set_header "Content-Type" (codes "application/xml") w))

-- `fmt.Sprintf("\"%x\"", n)`
abbrev pub etag : ℤ → Bytes
etag n = codes "\"" ++ (format_int 16 n ++ codes "\"")
