-- ===== src/Tests.antt =====
-- The theorems at concrete inputs.
pub mod Merging
pub mod Formatter
pub mod Pipe
pub mod Services
pub mod Settings
pub mod Parsing
pub mod Agents
pub mod Graph
pub mod Serving
pub mod Asking
pub mod Router
pub mod Plugins
pub mod Flat
pub mod Backends
