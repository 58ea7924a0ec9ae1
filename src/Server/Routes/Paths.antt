-- ===== src/Server/Routes/Paths.antt =====
-- The paths of src/web_server.py that its clients name, as `do_POST` reads them.
use mx2_sandbox.Base.{◌≡◌, refl, str, nat_eq, list_eq}
use mx2_sandbox.Server.Routes.{
  translate, pow_verify, queue_list, queue_approve, queue_reject, cas_download, endpoint_of,
  url_path, cut_parameters,
}

pub pow_route : endpoint_of (url_path (str "/api/pow/verify")) ≡ pow_verify
unfolding endpoint_of url_path cut_parameters list_eq nat_eq
pow_route = refl

pub approve_route : endpoint_of (url_path (str "/api/queue/approve")) ≡ queue_approve
unfolding endpoint_of url_path cut_parameters list_eq nat_eq
approve_route = refl

pub reject_route : endpoint_of (url_path (str "/api/queue/reject")) ≡ queue_reject
unfolding endpoint_of url_path cut_parameters list_eq nat_eq
reject_route = refl

pub list_route : endpoint_of (url_path (str "/api/queue/list")) ≡ queue_list
unfolding endpoint_of url_path cut_parameters list_eq nat_eq
list_route = refl

pub translate_route : endpoint_of (url_path (str "/api/translate")) ≡ translate
unfolding endpoint_of url_path cut_parameters list_eq nat_eq
translate_route = refl

pub cas_route : endpoint_of (url_path (str "/api/cas/download")) ≡ cas_download
unfolding endpoint_of url_path cut_parameters list_eq nat_eq
cas_route = refl
