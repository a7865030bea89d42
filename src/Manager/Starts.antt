-- ===== src/Manager/Starts.antt =====
-- When the manager is started, and what it knows then.
use streaming_runtime_go.Prelude.{Text, List, [], ◌∷◌, ◌++◌, Outcome, ok, fail, panic, Error, ◌≡◌}
use streaming_runtime_go.Manager.{Step, start_manager, returned, exited, panicked, Ended}

abbrev pub IsNotStart : Step → Type 0
IsNotStart start_manager = ⊥
IsNotStart _ = Unit

-- The last step, and no other, is the start.
abbrev IsStartLast : List Step → Type 0
IsStartLast [] = ⊥
IsStartLast (s ∷ []) = s ≡ start_manager
IsStartLast (s ∷ t ∷ steps) = IsNotStart s × IsStartLast (t ∷ steps)

module _ {W : Type 0} (api : Step → W → Outcome (Unit {0}) × W) where
  -- The steps, made one after the other from the first world on, all succeed and end in the second.
  abbrev pub Succeeds : List Step → W → W → Type 0
  Succeeds [] w w' = w ≡ w'
  Succeeds (s ∷ steps) w w' = (v : W) × (api s w ≡ (ok tt, v)) × Succeeds steps v w'

  -- How main ends: it has made every call, all have succeeded, and it returns; or the calls before one
  -- have succeeded, that one has failed, and main exits with its error or panics.
  pub data Stops (made steps : List Step) (w : W) (r : Ended) : Type 0 where
    through :
        (w' : W)
        → Succeeds steps w w'
        → r ≡ record { made = made ++ steps; exit = returned }
        → Stops made steps w r
    exited_at :
        (done : List Step) (s : Step) (rest : List Step) (v w' : W) (e : Error)
        → steps ≡ done ++ s ∷ rest
        → Succeeds done w v
        → api s v ≡ (fail e, w')
        → r ≡ record { made = made ++ (done ++ s ∷ []); exit = exited e }
        → Stops made steps w r
    panicked_at :
        (done : List Step) (s : Step) (rest : List Step) (v w' : W) (m : Text)
        → steps ≡ done ++ s ∷ rest
        → Succeeds done w v
        → api s v ≡ (panic m, w')
        → r ≡ record { made = made ++ (done ++ s ∷ []); exit = panicked m }
        → Stops made steps w r

  -- The steps are some, then the start; and the ones before it, made from a world on, succeed.
  pub record Starts (steps : List Step) (w : W) : Type 0 where
    pub before : List Step
    pub world : W
    pub whole : steps ≡ before ++ start_manager ∷ []
    pub succeeded : Succeeds before w world
