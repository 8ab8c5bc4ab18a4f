-- ===== src/HttpServer/Loop/Each.antt =====
-- The map of the clients, with a property that each of them has.
use my_power_mirror.Base.{
  ℕ, ◌≡◌, inl, inr, subst, some, List, [], ◌∷◌, ◌==◌, All, Bool-cases, Option-cases, some_injective,
}
use my_power_mirror.Client.{Client, new_client}
use my_power_mirror.HttpServer.Loop.{get_client, erase_client, set_client, insert_client}

abbrev pub Each : (Client → Type 0) → List (ℕ × Client) → Type 0
Each P clients = All (λ e. P e.1) clients

module _ (P : Client → Type 0) where
  pub erase_client-Each :
      (clfd : ℕ) (clients : List (ℕ × Client)) → Each P clients → Each P (erase_client clfd clients)
  unfolding erase_client
  erase_client-Each clfd [] h = tt
  erase_client-Each clfd ((fd, cl) ∷ clients) h = elim (Bool-cases (fd == clfd)) [
    | inl e ↦ rw e (erase_client-Each clfd clients h.1)
    | inr e ↦ rw e (h.0, erase_client-Each clfd clients h.1)
  ]

  pub set_client-Each :
      (clfd : ℕ) (cl : Client) (clients : List (ℕ × Client))
      → P cl
      → Each P clients
      → Each P (set_client clfd cl clients)
  unfolding set_client
  set_client-Each clfd cl [] e h = tt
  set_client-Each clfd cl ((fd, old) ∷ clients) new h = elim (Bool-cases (fd == clfd)) [
    | inl e ↦ rw e (new, set_client-Each clfd cl clients new h.1)
    | inr e ↦ rw e (h.0, set_client-Each clfd cl clients new h.1)
  ]

  pub insert_client-Each :
      (clfd : ℕ) (clients : List (ℕ × Client))
      → P new_client
      → Each P clients
      → Each P (insert_client clfd new_client clients)
  unfolding insert_client
  insert_client-Each clfd clients new h = elim (Option-cases (get_client clfd clients)) [
    | inl e ↦ rw (e, insert_client) (new, h)
    | inr (old, e) ↦ rw (e, insert_client) h
  ]

  pub get_client-Each :
      (clfd : ℕ) (cl : Client) (clients : List (ℕ × Client))
      → Each P clients
      → get_client clfd clients ≡ some cl
      → P cl
  unfolding get_client
  get_client-Each clfd cl [] h e = absurd (cc e)
  get_client-Each clfd cl ((fd, old) ∷ clients) h e = elim (Bool-cases (fd == clfd)) [
    | inl t ↦ let same : old ≡ cl = some_injective (rw (t, get_client) at e) in subst P same h.0
    | inr f ↦ get_client-Each clfd cl clients h.1 (rw (f, get_client) at e)
  ]
