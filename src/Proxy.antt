-- ===== src/Proxy.antt =====
-- proxy: the response of a backend, and the errors that the pipe reports.
pub mod Formatter
pub mod Filters
pub mod Merging
pub mod Concurrent
pub mod Static
pub mod Shadow
pub mod Cloning
pub mod Http
pub mod Stack
pub mod Modifiers
use lura_p.Common.{ℕ, Bool, String, List, Option}
use lura_p.Value.{Dict}

-- proxy.go Metadata
pub record Metadata : Type 0 where
  pub headers : List (String × List String)
  pub status_code : ℕ

-- proxy.go Response. `payload` (Data in the source) is `none` for the nil map; `io` is the content that is left to read,
-- `none` for the nil reader.
pub record Response : Type 0 where
  pub payload : Option Dict
  pub is_complete : Bool
  pub metadata : Metadata
  pub io : Option String

-- request.go Request. The URL is its text; `body` is the content that is left to read.
pub record Request : Type 0 where
  pub method : String
  pub url : Option String
  pub query : List (String × List String)
  pub path : String
  pub body : Option String
  pub params : List (String × String)
  pub headers : List (String × List String)

-- What a call of a proxy gives: `(*Response, error)`, each of which may be nil.
pub data Error : Type 0 where
  err_null_result : Error
  err_no_backends : Error
  err_context_done : Error
  err_other : String → Error

-- proxy.go Namespace
abbrev pub namespace : String
namespace = "github.com/devopsfaith/krakend/proxy"
