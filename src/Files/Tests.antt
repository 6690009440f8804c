-- ===== src/Files/Tests.antt =====
-- The theorems on transfers (src/lib/filesystem.cpp) at three bytes that the kernel cuts in two.
use nanodistro.Base.{List, [], ◌∷◌, ok, ◌>>=◌, All, ◌≡◌, ◌≢◌, arith}
use nanodistro.Files.{Answer, up_to, interrupted, again, ready, full_read, full_write}
use nanodistro.Files.Transfers.{IsPrompt, full_write-again, full_read-full_write}

abbrev two_pieces : List Answer
two_pieces = interrupted ∷ up_to 2 ∷ up_to 7 ∷ up_to 1 ∷ []

two_pieces-IsPrompt : All IsPrompt two_pieces
two_pieces-IsPrompt = (tt, (omega arith, (omega arith, (omega arith, tt))))

full_read-full_write_example :
    (full_write two_pieces [] (5 ∷ 6 ∷ 7 ∷ []) [] >>= (λ s. full_read two_pieces s 3 []))
    ≡ ok (5 ∷ 6 ∷ 7 ∷ [], [])
full_read-full_write_example =
    full_read-full_write two_pieces two_pieces [] (5 ∷ 6 ∷ 7 ∷ []) two_pieces-IsPrompt
      two_pieces-IsPrompt (omega arith) (omega arith)

full_write-again_example :
    full_write (again ∷ up_to 1 ∷ []) (ready 1 ∷ []) (5 ∷ []) [] ≢ ok (5 ∷ [])
full_write-again_example = full_write-again (up_to 1 ∷ []) (ready 1 ∷ []) 5 [] [] (5 ∷ [])
