-- ===== src/Api/Overlap.antt =====
-- Two approvals of one pack that overlap, at the route `decide_pack` of api/routes.py.
use googlecloudhack.Externals.{Externals}
use googlecloudhack.Value.{Value}
