-- ===== src/Runner/Precedence.antt =====
-- graph_runner.rs, resolve_and_merge_inputs: where a node's inputs come from.
use openmirai.Json.{Json}
