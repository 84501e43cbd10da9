-- ===== src/Wire/Tests.antt =====
-- Runs of wire.rs, with a writer that knows one request.
use mcp_crewd_rs.Base.{◌≡◌, refl, some, [], ◌∷◌, ◌++◌, arith}
use mcp_crewd_rs.Canonical.{null}
use mcp_crewd_rs.Wire.{WireRequest, read_frame, write_frame, read_frame-write_frame}

abbrev request : WireRequest
request = record { id = 1; method = "op_status"; params = null }

read_frame-write_frame_example :
    read_frame
      (λ r. 123 ∷ 125 ∷ [])
      (λ l. some request)
      (write_frame (λ r. 123 ∷ 125 ∷ []) (λ l. some request) [] request ++ 7 ∷ [])
    ≡ (some request, 7 ∷ [])
read_frame-write_frame_example =
    read_frame-write_frame (λ r. 123 ∷ 125 ∷ []) (λ l. some request) request (7 ∷ []) refl refl
      (omega arith)
