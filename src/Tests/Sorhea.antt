-- ===== src/Tests/Sorhea.antt =====
-- The theorems on the program that writes to the board, on a board; `strtoul` reads the length.
use gest_aqua.Prelude.{[], arith, inr, length, pos, refl, some, ◌∷◌, ◌≡◌}
use gest_aqua.DlgSorhea.{main, ouvert}
use gest_aqua.DlgSorhea.CommandLine.{write_line}
use gest_aqua.DlgSorhea.Written.{main-write_line}
use gest_aqua.PowerCam.{frame}
use gest_aqua.PowerCam.Ring.{enqueue}
use gest_aqua.PowerCam.Tasks.{interrupt_task}
use gest_aqua.Tests.{arm, board, recorder}

main-write_line_example :
    let c1 = (enqueue arm (frame 1 2 3) (board 3 2)).0 in
    let c2 = interrupt_task recorder arm 0 c1 in
    (main recorder arm 7 0 length
        (pos 3)
        []
        ([] ∷ write_line (48 ∷ []) (48 ∷ 49 ∷ []) (48 ∷ 48 ∷ 48 ∷ []))
        (board 3 2)
      ≡ some (c1, ouvert (pos 3) ∷ []))
    × (c2.bus ≡ frame 1 2 3 ∷ [])
    × (c2.bufw0 ≡ c2.bufw1)
unfolding frame
main-write_line_example =
    main-write_line recorder arm length [] [] (48 ∷ []) (48 ∷ 49 ∷ []) (48 ∷ 48 ∷ 48 ∷ []) 3 7 0
      (board 3 2) (refl, refl, inr refl) (omega arith)
