-- ===== src/Shell/Clients.antt =====
-- What the map of clients of shell_manager.rs holds after each operation.
use remote_executor.Base.{
  ℕ, ◌≡◌, refl, ◌∙◌, ◌⊎◌, inl, inr, true, false, ◌&&◌, Option, none, some, [], ◌∷◌, if◌then◌else◌,
  Bool-cases, Option-cases,
}
use mathlib.Core.Path.{subst}
use remote_executor.Base.Options.{and_then}
use remote_executor.Text.{Text, text_eq}
use remote_executor.Text.Equality.{text_eq_iff, text_eq_refl}
use remote_executor.Dict.{Dict, lookup}
use remote_executor.Dict.Laws.{lookup-insert, lookup-remove}
use remote_executor.Shell.{Core, ConnectedClient, ShellManager}
use remote_executor.Shell.Manager.{
  without_client, put_clients, removed_client, remove_client, has_token,
}

abbrev pub client_at : Dict (Dict ConnectedClient) → Text → Text → Option ConnectedClient
client_at clients pty id = and_then (lookup pty clients) (lookup id)

module _ {C X : Type 0} (core : Core C X) where
  without_client-lookup :
      (session_clients : Dict ConnectedClient) (id : Text) (token : ℕ) (id' : Text)
      → lookup id' (without_client core session_clients id token) ≡ (
          if text_eq id id' && has_token core (lookup id' session_clients) token
          then none
          else lookup id' session_clients)
  without_client-lookup session_clients id token id' = elim (Bool-cases (text_eq id id')) [
    | inl e ↦
        subst
          (λ k. lookup k (without_client core session_clients id token) ≡ (
            if text_eq id k && has_token core (lookup k session_clients) token
            then none
            else lookup k session_clients))
          ((text_eq_iff id id').0 e)
          (rw (text_eq_refl id)
            (own (Bool-cases (has_token core (lookup id session_clients) token))))
    | inr e ↦ rw e (other (Bool-cases (has_token core (lookup id session_clients) token)) e)
  ]
    where
      own :
          (has_token core (lookup id session_clients) token ≡ true)
            ⊎ (has_token core (lookup id session_clients) token ≡ false)
          → lookup id (without_client core session_clients id token) ≡ (
              if has_token core (lookup id session_clients) token
              then none
              else lookup id session_clients)
      own (inl t) = rw t (lookup-remove id id session_clients ∙ rw (text_eq_refl id) refl)
      own (inr t) = rw t refl

      other :
          (has_token core (lookup id session_clients) token ≡ true)
            ⊎ (has_token core (lookup id session_clients) token ≡ false)
          → text_eq id id' ≡ false
          → lookup id' (without_client core session_clients id token) ≡ lookup id' session_clients
      other (inl t) e = rw t (lookup-remove id id' session_clients ∙ rw e refl)
      other (inr t) e = rw t refl

  client_at-put_clients :
      (clients : Dict (Dict ConnectedClient)) (pty : Text) (session_clients : Dict ConnectedClient)
      (pty' id' : Text)
      → client_at (put_clients core clients pty session_clients) pty' id'
        ≡ (if text_eq pty pty' then lookup id' session_clients else client_at clients pty' id')
  unfolding lookup
  client_at-put_clients clients pty [] pty' id' =
      rw (lookup-remove pty pty' clients)
        (elim (Bool-cases (text_eq pty pty')) [ inl e ↦ rw e refl | inr e ↦ rw e refl ])
  client_at-put_clients clients pty (client ∷ rest) pty' id' =
      rw (lookup-insert pty pty' (client ∷ rest) clients)
        (elim (Bool-cases (text_eq pty pty')) [ inl e ↦ rw e refl | inr e ↦ rw e refl ])

  -- The removal of a client takes the client of that name away if its token is the one given, so one that
  -- has connected again under the name stays, and it takes away no other.
  pub remove_client-client_at :
      (manager : ShellManager C) (pty id : Text) (token : ℕ) (pty' id' : Text)
      → client_at (remove_client core manager pty id token).clients pty' id' ≡ (
          if text_eq pty pty'
            && (text_eq id id' && has_token core (client_at manager.clients pty' id') token)
          then none
          else client_at manager.clients pty' id')
  unfolding remove_client
  remove_client-client_at manager pty id token pty' id' = elim (Bool-cases (text_eq pty pty')) [
    | inl e ↦
        subst
          (λ p. client_at (remove_client core manager pty id token).clients p id' ≡ (
            if text_eq pty p
              && (text_eq id id' && has_token core (client_at manager.clients p id') token)
            then none
            else client_at manager.clients p id'))
          ((text_eq_iff pty pty').0 e)
          (rw (text_eq_refl pty) (own (Option-cases (lookup pty manager.clients))))
    | inr e ↦ rw e (other (Option-cases (lookup pty manager.clients)) e)
  ]
    where
      own :
          (lookup pty manager.clients ≡ none)
            ⊎ ((sc : Dict ConnectedClient) × (lookup pty manager.clients ≡ some sc))
          → client_at
              (removed_client core manager.clients pty id token (lookup pty manager.clients))
              pty
              id'
            ≡ (if text_eq id id' && has_token core (client_at manager.clients pty id') token
                then none
                else client_at manager.clients pty id')
      own (inl e) =
          rw e (rw e (elim (Bool-cases (text_eq id id')) [ inl t ↦ rw t refl | inr t ↦ rw t refl ]))
      own (inr (sc, e)) = rw e (
          client_at-put_clients manager.clients pty (without_client core sc id token) pty id'
          ∙ rw (text_eq_refl pty) (without_client-lookup sc id token id'))

      other :
          (lookup pty manager.clients ≡ none)
            ⊎ ((sc : Dict ConnectedClient) × (lookup pty manager.clients ≡ some sc))
          → text_eq pty pty' ≡ false
          → client_at
              (removed_client core manager.clients pty id token (lookup pty manager.clients))
              pty'
              id'
            ≡ client_at manager.clients pty' id'
      other (inl e) ne = rw e refl
      other (inr (sc, e)) ne = rw e (
          client_at-put_clients manager.clients pty (without_client core sc id token) pty' id'
          ∙ rw ne refl)
