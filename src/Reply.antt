-- ===== src/Reply.antt =====
-- src/reply.cpp and include/reply.hpp: a reply, and the buffers in which it is sent.
pub mod Wire
mod Tests
use as_proxyd.Common.{ℕ, List, [], ◌∷◌, ◌++◌, Bytes, codes}
use as_proxyd.Request.{Header}

-- `status_type`.
pub data Status : Type 0 where
  ok created accepted no_content : Status
  multiple_choices moved_permanently moved_temporarily not_modified : Status
  bad_request unauthorized forbidden not_found : Status
  internal_server_error not_implemented bad_gateway service_unavailable : Status

-- The numbers of the enumeration.
unfoldable pub status_value : Status → ℕ
status_value ok = 200
status_value created = 201
status_value accepted = 202
status_value no_content = 204
status_value multiple_choices = 300
status_value moved_permanently = 301
status_value moved_temporarily = 302
status_value not_modified = 304
status_value bad_request = 400
status_value unauthorized = 401
status_value forbidden = 403
status_value not_found = 404
status_value internal_server_error = 500
status_value not_implemented = 501
status_value bad_gateway = 502
status_value service_unavailable = 503

-- `status_strings::to_buffer`; its default stands for numbers outside the enumeration.
unfoldable pub to_buffer : Status → Bytes
to_buffer ok = codes "HTTP/1.1 200 OK\r\n"
to_buffer created = codes "HTTP/1.1 201 Created\r\n"
to_buffer accepted = codes "HTTP/1.1 202 Accepted\r\n"
to_buffer no_content = codes "HTTP/1.1 204 No Content\r\n"
to_buffer multiple_choices = codes "HTTP/1.1 300 Multiple Choices\r\n"
to_buffer moved_permanently = codes "HTTP/1.1 301 Moved Permanently\r\n"
to_buffer moved_temporarily = codes "HTTP/1.1 302 Moved Temporarily\r\n"
to_buffer not_modified = codes "HTTP/1.1 304 Not Modified\r\n"
to_buffer bad_request = codes "HTTP/1.1 400 Bad Request\r\n"
to_buffer unauthorized = codes "HTTP/1.1 401 Unauthorized\r\n"
to_buffer forbidden = codes "HTTP/1.1 403 Forbidden\r\n"
to_buffer not_found = codes "HTTP/1.1 404 Not Found\r\n"
to_buffer internal_server_error = codes "HTTP/1.1 500 Internal Server Error\r\n"
to_buffer not_implemented = codes "HTTP/1.1 501 Not Implemented\r\n"
to_buffer bad_gateway = codes "HTTP/1.1 502 Bad Gateway\r\n"
to_buffer service_unavailable = codes "HTTP/1.1 503 Service Unavailable\r\n"

-- `stock_replies::to_string`.
unfoldable pub to_string : Status → Bytes
to_string ok = codes ""
to_string created =
    codes "<html><head><title>Created</title></head>"
    ++ codes "<body><h1>201 Created</h1></body></html>\r\n"
to_string accepted =
    codes "<html><head><title>Accepted</title></head>"
    ++ codes "<body><h1>202 Accepted</h1></body></html>\r\n"
to_string no_content =
    codes "<html><head><title>No Content</title></head>"
    ++ codes "<body><h1>204 Content</h1></body></html>\r\n"
to_string multiple_choices =
    codes "<html><head><title>Multiple Choices</title></head>"
    ++ codes "<body><h1>300 Multiple Choices</h1></body></html>\r\n"
to_string moved_permanently =
    codes "<html><head><title>Moved Permanently</title></head>"
    ++ codes "<body><h1>301 Moved Permanently</h1></body></html>\r\n"
to_string moved_temporarily =
    codes "<html><head><title>Moved Temporarily</title></head>"
    ++ codes "<body><h1>302 Moved Temporarily</h1></body></html>\r\n"
to_string not_modified =
    codes "<html><head><title>Not Modified</title></head>"
    ++ codes "<body><h1>304 Not Modified</h1></body></html>\r\n"
to_string bad_request =
    codes "<html><head><title>Bad Request</title></head>"
    ++ codes "<body><h1>400 Bad Request</h1></body></html>\r\n"
to_string unauthorized =
    codes "<html><head><title>Unauthorized</title></head>"
    ++ codes "<body><h1>401 Unauthorized</h1></body></html>\r\n"
to_string forbidden =
    codes "<html><head><title>Forbidden</title></head>"
    ++ codes "<body><h1>403 Forbidden</h1></body></html>\r\n"
to_string not_found =
    codes "<html><head><title>Not Found</title></head>"
    ++ codes "<body><h1>404 Not Found</h1></body></html>\r\n"
to_string internal_server_error =
    codes "<html><head><title>Internal Server Error</title></head>"
    ++ codes "<body><h1>500 Internal Server Error</h1></body></html>\r\n"
to_string not_implemented =
    codes "<html><head><title>Not Implemented</title></head>"
    ++ codes "<body><h1>501 Not Implemented</h1></body></html>\r\n"
to_string bad_gateway =
    codes "<html><head><title>Bad Gateway</title></head>"
    ++ codes "<body><h1>502 Bad Gateway</h1></body></html>\r\n"
to_string service_unavailable =
    codes "<html><head><title>Service Unavailable</title></head>"
    ++ codes "<body><h1>503 Service Unavailable</h1></body></html>\r\n"

pub record Reply : Type 0 where
  pub status : Status
  pub headers : List Header
  pub content : Bytes

-- `reply::clear`: the status stays.
unfoldable pub clear : Reply → Reply
clear r = record r { headers = []; content = [] }

-- `misc_strings`.
abbrev pub name_value_separator : Bytes
name_value_separator = b':' ∷ b' ' ∷ []

abbrev pub crlf : Bytes
crlf = b'\r' ∷ b'\n' ∷ []

-- The loop of `to_buffers` over the headers.
unfoldable pub header_buffers : List Header → List Bytes
header_buffers [] = []
header_buffers (h ∷ hs) = h.name ∷ name_value_separator ∷ h.value ∷ crlf ∷ header_buffers hs

unfoldable pub to_buffers : Reply → List Bytes
unfolding header_buffers
to_buffers r = to_buffer r.status ∷ (header_buffers r.headers ++ (crlf ∷ r.content ∷ []))

-- `stock_reply`: the code that fills the content and the headers is commented out.
unfoldable pub stock_reply : Status → Reply
stock_reply s = record { status = s; headers = []; content = [] }
