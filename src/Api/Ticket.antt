-- ===== src/Api/Ticket.antt =====
-- The ticket that the route `decide_pack` of api/routes.py hands to the engine.
use googlecloudhack.Externals.{Externals}
