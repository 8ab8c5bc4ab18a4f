-- ===== src/HttpServer/Resources.antt =====
-- src/HTTPServer.cpp, handleGet, which no code calls any more: the reply to a request for a
-- resource.
use my_power_mirror.Base.{
  ◌<◌, ◌≡◌, refl, ap, ◌∙◌, inr, Bool, true, false, ◌||◌, none, some, [], map, Bytes, codes, ◌==◌,
  if◌then◌else◌, length, Outcome, fail, undefined_behavior,
}
use my_power_mirror.CString.{str_eq}
use my_power_mirror.CString.Laws.{Lacks}
use my_power_mirror.Client.{Client}
use my_power_mirror.HttpMessage.HeaderMap.{get_header_value}
use my_power_mirror.HttpRequest.{HttpRequest}
use my_power_mirror.HttpResponse.{HttpResponse, set_status}
use my_power_mirror.HttpResponse.Wire.{response_text, create_response-response_text}
use my_power_mirror.HttpServer.{
  new_response, add_header, add_header_int, send_response, send_status_response,
}
use my_power_mirror.HttpServer.Sending.{closing, send_response_no_nul}
use my_power_mirror.ResourceHost.{FileSystem, Resource, get_resource}

-- The response up to its body, and the body, that only GET has.
unfoldable pub resource_response : HttpRequest → Resource → HttpResponse
resource_response req r =
    let resp = set_status new_response 200 in
    let resp = add_header resp (codes "Content-Type") r.mime_type in
    let resp = add_header_int resp (codes "Content-Length") r.contents_size in
    if req.method == 1
    then record resp {
      message = record resp.message { body = some r.contents; data_len = r.contents_size };
    }
    else resp

unfoldable pub wants_close : HttpRequest → Bool
wants_close req =
    str_eq req.message.version (codes "HTTP/1.0")
    || str_eq (get_header_value req.message.headers (codes "Connection")) (codes "close")

unfoldable pub handle_get : FileSystem → Bytes → Client → HttpRequest → Outcome Client
handle_get fs base cl req = elim (get_resource fs base req.request_uri) [
  | none ↦ send_status_response cl 404 []
  | some r ↦ send_response cl (resource_response req r) (wants_close req)
]

closing-message :
    (resp : HttpResponse) (disconnect : Bool)
    → ((closing resp disconnect).message.body ≡ resp.message.body)
      × ((closing resp disconnect).message.data_len ≡ resp.message.data_len)
closing-message resp true = (refl, refl)
closing-message resp false = (refl, refl)

resource_response-get :
    (req : HttpRequest) (r : Resource)
    → req.method ≡ 1
    → ((resource_response req r).message.body ≡ some r.contents)
      × ((resource_response req r).message.data_len ≡ r.contents_size)
unfolding resource_response
resource_response-get req r h = rw h (refl, refl)

-- A GET of a resource whose bytes are all known, if the whole response has no NUL in it and is
-- shorter than 4 GiB: `strcpy` reads past the end of the array that `create` has made.
handle_get-undefined :
    (fs : FileSystem) (base : Bytes) (cl : Client) (req : HttpRequest) (r : Resource)
    (content : Bytes)
    → get_resource fs base req.request_uri ≡ some r
    → req.method ≡ 1
    → r.contents ≡ map some content
    → r.contents_size ≡ length content
    → length (response_text (closing (resource_response req r) (wants_close req)) content)
      < 4294967296
    → Lacks 0 (response_text (closing (resource_response req r) (wants_close req)) content)
    → handle_get fs base cl req ≡ fail undefined_behavior
unfolding handle_get
handle_get-undefined fs base cl req r content found get known size fits lacks =
    let resp = resource_response req r in
    let (body, len) = closing-message resp (wants_close req) in
    let (body', len') = resource_response-get req r get in
    let (resp', e, _) =
      create_response-response_text (closing resp (wants_close req)) content
        (inr (body ∙ body' ∙ ap some known, len ∙ len' ∙ size)) fits in
    rw (found, handle_get)
      (send_response_no_nul cl resp resp' (wants_close req)
        (response_text (closing resp (wants_close req)) content) e lacks)
