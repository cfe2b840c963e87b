-- ===== src/Examples/Ws.antt =====
-- A hub with a connection that has come and gone.
use masonic_core.Prelude.{refl, any_row}
use masonic_core.Ws.Steps.{connect, leave, start, connects, leaves, begin, Reach}
use masonic_core.Ws.Safety.{IsSafe, reach-IsSafe}

one_connection : Reach (connect 7 1 start)
unfolding any_row
one_connection = Reach.after begin (connects 7 1 refl refl)

gone_again : Reach (leave 7 1 (connect 7 1 start))
gone_again = Reach.after one_connection (leaves 7 1 refl)

reach-IsSafe_example : IsSafe (leave 7 1 (connect 7 1 start))
reach-IsSafe_example = reach-IsSafe gone_again
