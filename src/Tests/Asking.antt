-- ===== src/Tests/Asking.antt =====
-- The pipe of a backend whose two proxies differ on another method, and a reply with status 404.
use lura_p.Common.{true, [], ◌∷◌, none, some, str_eq, if◌then◌else◌}
use lura_p.Value.{end, Dict}
use lura_p.Tests.Flat.{trees}
use lura_p.Config.{Backend}
use lura_p.Proxy.{Request, err_null_result}
use lura_p.Proxy.Http.{HttpReply, Network, http_proxy}
use lura_p.Proxy.Http.Answered.{IsProxied, http_proxy-IsAnswered}
use lura_p.Proxy.Modifiers.{Proxy, returned}
use lura_p.Proxy.Stack.{Pipe, outer_stack}
use lura_p.Proxy.Stack.Asked.{IsPiped, outer_stack-IsPiped}
use lura_p.Sd.Balancer.{host}
use lura_p.Tests.Pipe.{request, backend}
use lura_p.Tests.Graph.{platform}

abbrev pub lost : HttpReply
lost = record { status_code = 404; headers = []; body = some "gone"; path = "/posts" }

abbrev pub network : Network Dict
network = record {
  trees = trees;
  body_left = λ n b. b;
  is_request = λ m u. true;
  to_title = λ s. s;
  atoi = λ s. none;
  gunzip = λ s. none;
  decode = λ s. none;
  execute = λ n x. record { reply = lost; err = none; ctx_err = none };
}

abbrev asked_url : Request
asked_url = record request { url = some "http://a/posts" }

http_proxy-IsAnswered_example :
    IsProxied network
      (backend end)
      0
      asked_url
      (some "http://a/posts")
      (http_proxy network (backend end) 0 asked_url)
http_proxy-IsAnswered_example = http_proxy-IsAnswered network (backend end) 0 asked_url

abbrev pub pipe : Pipe
pipe = record {
  host_at = λ n. host "http://a";
  parse_url = λ s. some (record { base = s; raw_query = ""; fragment = "" });
  encode = λ q. "page=2";
  replace_all = λ s old new. s;
  modifiers = [];
  platform = platform;
  sd_message = λ e. "no hosts";
  url_message = "invalid URL";
  graphql_message = "";
  backend_message = λ e. "";
  rounds = [];
}

abbrev listed : Backend
listed = record (backend end) { method = "GET"; query_strings_to_pass = "page" ∷ [] }

-- It answers with an error to all but one method.
abbrev picky : Proxy
picky n x =
    if str_eq x.method "GET" then returned none none else returned none (some err_null_result)

outer_stack-IsPiped_example :
    IsPiped pipe listed picky request 0 (outer_stack pipe listed picky 0 request)
outer_stack-IsPiped_example = outer_stack-IsPiped pipe listed picky request 0
