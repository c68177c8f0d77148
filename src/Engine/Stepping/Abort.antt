-- ===== src/Engine/Stepping/Abort.antt =====
-- An executor's abort ends the run, and its reason reaches the result verbatim.
use fancy_flow_rs.Platform.{Platform}
use fancy_flow_rs.Engine.Walk.{Walk}
