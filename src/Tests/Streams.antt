-- ===== src/Tests/Streams.antt =====
-- docker.go, Logs and the production of logs: the theorems at concrete streams and runs.
use testcontainers_go.Base.{
  ◌≡◌, ◌≤◌, ◌↔◌, refl, true, false, none, some, List, [], ◌∷◌, ◌++◌, inl, arith, concat_map, Bytes,
}
use testcontainers_go.Logs.Frames.RoundTrip.{Frame}
use testcontainers_go.Logs.Lines.{relay, prepend}
use testcontainers_go.Logs.Lines.Headers.{framed, shown, relay-frames, relay-ten}
use testcontainers_go.Logs.Production.{
  Production, production, finished, waiting, returned, Step, Steps, here, next, started, stop_again,
  stop_result, asks, polls, quits, sends, receives,
}
use testcontainers_go.Logs.Production.Stopping.{
  IsUseful, stop_returned-IsUseful, stop_again_blocks, stop_goes_on,
}
use testcontainers_go.Logs.Production.Within.{stop_within}

abbrev two_frames : List Frame
two_frames =
    record { stream = 1; content = 104 ∷ 105 ∷ 10 ∷ [] }
    ∷ record { stream = 2; content = [] }
    ∷ record { stream = 2; content = 111 ∷ 10 ∷ [] }
    ∷ []

-- A line of five bytes behind its header.
abbrev hello : Bytes × Bytes
hello = (1 ∷ 0 ∷ 0 ∷ 0 ∷ 0 ∷ 0 ∷ 0 ∷ 5 ∷ [], 104 ∷ 101 ∷ 108 ∷ 111 ∷ [])

relay-frames_example :
    relay 2 4096 true (concat_map framed (hello ∷ []))
    ≡ some (concat_map shown (hello ∷ []) ++ 10 ∷ [])
relay-frames_example = relay-frames 2 4096 (hello ∷ []) (omega arith) (omega arith) (
  (
    refl,
    (
      omega arith,
      (
        omega arith,
        (
          omega arith,
          (
            omega arith,
            (
              omega arith,
              (
                omega arith,
                (
                  omega arith,
                  (omega arith, (omega arith, (omega arith, (omega arith, (omega arith, tt))))),
                ),
              ),
            ),
          ),
        ),
      ),
    ),
    omega arith,
    omega arith,
  ),
  tt,
)

relay-ten_example :
    relay 2 4096 true (
      1
      ∷ 0
      ∷ 0
      ∷ 0
      ∷ 0
      ∷ 0
      ∷ 0
      ∷ 10
      ∷ (((97 ∷ 98 ∷ 99 ∷ 100 ∷ 101 ∷ 102 ∷ 103 ∷ 104 ∷ []) ++ 105 ∷ []) ++ 10 ∷ []))
    ≡ prepend (1 ∷ 0 ∷ 0 ∷ 0 ∷ 0 ∷ 0 ∷ 0 ∷ 10 ∷ 105 ∷ 10 ∷ []) (relay 0 4096 true [])
relay-ten_example =
    relay-ten 0 4096 1 (97 ∷ 98 ∷ 99 ∷ 100 ∷ 101 ∷ 102 ∷ 103 ∷ 104 ∷ []) 105 [] (omega arith)
      (inl refl) refl
      (
        omega arith,
        (
          omega arith,
          (
            omega arith,
            (
              omega arith,
              (omega arith, (omega arith, (omega arith, (omega arith, (omega arith, tt))))),
            ),
          ),
        ),
      )
      (omega arith)

-- A production that ends by itself before it is stopped.
abbrev ended : Steps 5 started (production finished true none (returned (stop_result none)))
ended = next (next (next (next (next here asks) polls) quits) sends) receives

stop_returned-IsUseful_example : (finished ≡ finished) × IsUseful (stop_result none)
stop_returned-IsUseful_example = stop_returned-IsUseful ended

stop_again_blocks_example :
    ((t : Production) × Step
        (stop_again (production finished true none (returned (stop_result none))))
        t)
    ↔ (true ≡ false)
stop_again_blocks_example = stop_again_blocks ended

stop_goes_on_example : (t : Production) × Step (production finished true none waiting) t
stop_goes_on_example = stop_goes_on (next (next (next (next here asks) polls) quits) sends)

stop_within_example : 1 ≤ 7
stop_within_example =
    stop_within (next (next (next (next here asks) polls) quits) sends) (next here receives)
