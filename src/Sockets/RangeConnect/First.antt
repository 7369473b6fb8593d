-- ===== src/Sockets/RangeConnect/First.antt =====
-- Which endpoint is connected to, and which error is reported.
use win_io.Base.{List, [], ◌∷◌, ◌++◌, map, ◌≡◌, refl, arith, length}
use win_io.Base.Outcome.{done}
use win_io.Os.{ErrorCode, minus_one}
use win_io.Sockets.Transfer.{Signal, set_value, set_error}
use win_io.Sockets.RangeConnect.{completes, connects, start_next_connect, start, run}

abbrev pub last : ErrorCode → List ErrorCode → ErrorCode
last ec [] = ec
last _ (ec ∷ ecs) = last ec ecs

module _ {ℓ} {Endpoint : Type ℓ} where
  -- Endpoints that refuse with these errors are passed.
  refused :
      (ec : ErrorCode) (before : List Endpoint) (ecs : List ErrorCode) (after : List Endpoint)
      (later : List (Signal (Unit {0})))
      → length before ≡ length ecs
      → run
          (map set_error ecs ++ later)
          (start_next_connect (record { endpoints = before ++ after; last_error = ec }))
        ≡ run later (start_next_connect (record { endpoints = after; last_error = last ec ecs }))
  unfolding run
  refused ec [] [] after later same = refl
  refused ec [] (e ∷ ecs) after later same = absurd (omega (arith, same))
  refused ec (b ∷ before) [] after later same = absurd (omega (arith, same))
  refused ec (b ∷ before) (e ∷ ecs) after later same =
      refused e before ecs after later (omega (arith, same))

  run-completes :
      (signals : List (Signal (Unit {0}))) (s : Signal Endpoint)
      → run signals (completes s) ≡ done (completes s)
  unfolding run
  run-completes [] s = refl
  run-completes (_ ∷ _) s = refl

  -- When the endpoints of `before` refuse, one with each of the errors `ecs`: the operation
  -- completes with the endpoint behind them when that accepts; it is left waiting for that one as
  -- long as it has told nothing; and it fails when there is none, with the last of the errors, or
  -- with error -1 if there was no endpoint.
  pub start-refused :
      (before : List Endpoint) (ecs : List ErrorCode) (endpoint : Endpoint) (after : List Endpoint)
      (later : List (Signal (Unit {0})))
      → length before ≡ length ecs
      → (run (map set_error ecs ++ set_value tt ∷ later) (start (before ++ endpoint ∷ after))
          ≡ done (completes (set_value endpoint)))
        × (run (map set_error ecs ++ []) (start (before ++ endpoint ∷ after))
            ≡ done (
                connects
                  (record { endpoints = endpoint ∷ after; last_error = last minus_one ecs })))
        × (run (map set_error ecs ++ later) (start (before ++ []))
            ≡ done (completes (set_error (last minus_one ecs))))
  unfolding run start
  start-refused before ecs endpoint after later same = (
    rw (refused minus_one before ecs (endpoint ∷ after) (set_value tt ∷ later) same) refl,
    rw (refused minus_one before ecs (endpoint ∷ after) [] same) refl,
    rw (refused minus_one before ecs [] later same)
        (run-completes later (set_error (last minus_one ecs))),
  )
