-- ===== src/Userfs/Examples/Directory.antt =====
-- The names of a session, and what the refinement gives of it.
use iu_sp.Base.{◌≡◌, refl, true, false, List, [], ◌∷◌, arith, Returns}
use iu_sp.Int.{pos}
use iu_sp.Userfs.State.{Name, initial}
use iu_sp.Userfs.Session.{Call}
use iu_sp.Userfs.Names.{has_name}
use iu_sp.Userfs.Names.Directory.{dir_session, answers}
use iu_sp.Userfs.Names.Refinement.{answers-Directory}
use iu_sp.Userfs.Examples.{above, above-IsFresh, name}

-- A file is opened for want of UFS_CREATE in vain, made, opened again, and deleted while it is open.
abbrev renamed : List Call
renamed =
    Call.open_file name 0
    ∷ Call.open_file name 1
    ∷ Call.open_file name 0
    ∷ Call.delete_file name
    ∷ Call.open_file name 0
    ∷ Call.close_file (pos 1)
    ∷ Call.delete_file name
    ∷ []

set_answers :
    (dir_session renamed (λ m. false)).0 ≡ false ∷ true ∷ true ∷ true ∷ false ∷ true ∷ false ∷ []
set_answers = refl

answers-Directory_example :
    Returns
      (λ r.
        (r.0 ≡ (dir_session renamed (λ m. false)).0)
        × ((m : Name) → has_name r.1.file_list m ≡ (dir_session renamed (λ m. false)).1 m))
      (answers above renamed initial)
answers-Directory_example = answers-Directory above above-IsFresh renamed (omega arith)
