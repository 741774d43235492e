-- ===== src/Tests/Pipe.antt =====
-- The middlewares of the pipe on a request and a response.
use lura_p.Common.{
  true, false, List, [], ◌∷◌, Option, none, some, ◌≡◌, refl, String, nodup, contains,
}
use lura_p.Common.Int.{ℤ, pos}
use lura_p.Value.{bool, number, text, obj, field, end, Dict}
use lura_p.Config.{Backend, EndpointConfig}
use lura_p.Proxy.{Request, Response, Error, namespace}
use lura_p.Proxy.Merging.{bare}
use lura_p.Proxy.Filters.{lookup, filter_headers}
use lura_p.Proxy.Filters.Passed.{filter_headers-lookup}
use lura_p.Proxy.Concurrent.{
  Round, ended, context_done, process_concurrent_call, concurrent, concurrent-first_complete,
}
use lura_p.Proxy.Static.{StaticConfig, success}

abbrev pub request : Request
request = record {
  method = "GET";
  url = none;
  query = ("page", "2" ∷ []) ∷ ("size", "9" ∷ []) ∷ [];
  path = "/posts";
  body = none;
  params = [];
  headers = ("Accept", "*" ∷ []) ∷ ("Cookie", "c" ∷ []) ∷ [];
}

filter_headers-lookup_example :
    (lookup "Accept" (filter_headers ("Accept" ∷ "Host" ∷ []) request).headers ≡ some ("*" ∷ []))
    × (filter_headers ("Accept" ∷ "Host" ∷ []) request
        ≡ record request { headers = (filter_headers ("Accept" ∷ "Host" ∷ []) request).headers })
unfolding contains nodup lookup
filter_headers-lookup_example = filter_headers-lookup "Accept" ("Host" ∷ []) request "Accept" refl

abbrev pub whole : Response
whole = bare (field "id" (number "1") end) true

abbrev half : Response
half = bare (field "id" (number "1") end) false

abbrev rounds : List Round
rounds =
    ended (some half) none false
    ∷ ended none none false
    ∷ context_done
    ∷ ended (some whole) none false
    ∷ []

concurrent-first_complete_example : concurrent rounds ≡ (some whole, none)
unfolding process_concurrent_call
concurrent-first_complete_example = concurrent-first_complete rounds

abbrev static_config : StaticConfig
static_config = record {
  payload = field "source" (text "cache") end;
  strategy = "success";
  match = success;
}

abbrev pub backend : Dict → Backend
backend extra = record {
  group = "";
  method = "";
  host = [];
  host_sanitization_disabled = false;
  url_pattern = "/posts/{id}";
  allow_list = [];
  deny_list = [];
  mapping = [];
  encoding = "json";
  is_collection = false;
  target = "";
  sd = "";
  sd_scheme = "";
  url_keys = [];
  concurrent_calls = pos 0;
  timeout = pos 5;
  decoder = none;
  extra_config = extra;
  headers_to_pass = [];
  query_strings_to_pass = [];
  parent_endpoint = "";
  parent_endpoint_method = "";
}

abbrev shadow_extra : Dict
shadow_extra = field namespace (obj (field "shadow" (bool true) end)) end

abbrev pub endpoint : EndpointConfig
endpoint = record {
  endpoint = "/posts/{id}";
  method = "";
  backend = backend end ∷ backend shadow_extra ∷ [];
  concurrent_calls = pos 0;
  timeout = pos 0;
  cache_ttl = pos 0;
  query_string = [];
  extra_config = end;
  headers_to_pass = [];
  output_encoding = "";
}

abbrev no_durations : String → Option ℤ
no_durations s = none

-- A factory whose proxies are the lists of their hosts.
abbrev factory : EndpointConfig → Option (List Backend) × Option Error
factory cfg = (some cfg.backend, none)
