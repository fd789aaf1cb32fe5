-- ===== src/Examples/Credits.antt =====
-- Runs of the credit service and of the operations on scans that it is charged for.
use kerislab.Services.Books.{Books}
use kerislab.Prelude.{List, ◌≡◌, ◌∷◌, []}
use kerislab.Services.Lifecycle.{explained, Reaches-Books, credits_explained}
use kerislab.Services.Credits.Ledger.{Agrees, balance_of}
use kerislab.Services.Credits.Conservation.{
  perform_all, Call, perform_all-Agrees, grant_call, total, granted_in, credits_conserved, reserves,
}
use kerislab.Examples.Sample.{ordered_world, sample_world, ordered-Reaches, sample_Books}
use kerislab.Prelude.Int.{pos}

-- a grant, a reservation, and a reservation that is refused
abbrev sample_calls : List Call
sample_calls =
    grant_call "wsp" (pos 1) "trial" ∷ reserves "wsp" "scn_1" ∷ reserves "wsp" "scn_2" ∷ []

perform_all-Agrees_example : Agrees (perform_all sample_calls sample_world).store
perform_all-Agrees_example = perform_all-Agrees sample_calls sample_world sample_Books.agrees

credits_conserved_example :
    let s = (perform_all sample_calls sample_world).store in
    total (balance_of "wsp" s) ≡ granted_in "wsp" s.credit_ledger
credits_conserved_example = credits_conserved sample_calls sample_world "wsp" sample_Books.agrees

Reaches-Books_example : Books ordered_world.store
Reaches-Books_example = Reaches-Books ordered-Reaches sample_Books

credits_explained_example :
    explained "wsp" ordered_world.store ≡ granted_in "wsp" ordered_world.store.credit_ledger
credits_explained_example = credits_explained "wsp" ordered-Reaches sample_Books
