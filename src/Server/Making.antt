-- ===== src/Server/Making.antt =====
-- The servers that `ForPort` of server/server.go makes.
use anycable_go.Base.{
  ◌≡◌, refl, ◌∙◌, ap, String, false, Option, none, some, ◌=s=◌, =s=_refl, ◌≢◌, arith, inl, inr, ◌⊎◌,
  Bool-cases,
}
use anycable_go.Base.GoMap.{lookup, insert, lookup-insert}
use anycable_go.Base.Outcome.{Outcome, ok, err, panic}
use anycable_go.Server.{
  HttpServer, ServerDefaults, Servers, new_server, add_server, for_port, new_server_for,
  secured_server, available, use_server, SslConfig,
}

abbrev pub IsFresh : HttpServer → Type 0
IsFresh s = (s.started ≡ false) × (s.shutdown ≡ false)

secured-IsFresh :
    (d : ServerDefaults) (port : String) (e : Option String) (s : HttpServer)
    → secured_server d port e ≡ ok s
    → IsFresh s
unfolding secured_server
secured-IsFresh d port none s e = ground arith
secured-IsFresh d port (some x) s e = absurd (cc)

made-IsFresh :
    (d : ServerDefaults) (port : String) (ssl : Option SslConfig) (s : HttpServer)
    → new_server_for d port ssl ≡ ok s
    → IsFresh s
unfolding new_server_for
made-IsFresh d port none s e = ground arith
made-IsFresh d port (some ssl) s e = elim (Bool-cases (available ssl)) [
  | inl both ↦ secured-IsFresh d port (d.load_error ssl) s (rw both at e)
  | inr missing ↦ let same = (rw missing at e) in ground arith
]

pub new_server-IsFresh :
    (d : ServerDefaults) (port : String) (s : HttpServer) → new_server d port ≡ ok s → IsFresh s
unfolding new_server
new_server-IsFresh d port s e = made-IsFresh d port d.ssl s e

secured-calm :
    (d : ServerDefaults) (port : String) (e : Option String) → secured_server d port e ≢ panic
unfolding secured_server
secured-calm d port none = λ e. cc
secured-calm d port (some x) = λ e. cc

made-calm :
    (d : ServerDefaults) (port : String) (ssl : Option SslConfig)
    → new_server_for d port ssl ≢ panic
unfolding new_server_for
made-calm d port none = λ e. cc
made-calm d port (some ssl) = elim (Bool-cases (available ssl)) [
  | inl both ↦ rw both (secured-calm d port (d.load_error ssl))
  | inr missing ↦ rw missing (λ e. cc)
]

new_server-calm : (d : ServerDefaults) (port : String) → new_server d port ≢ panic
unfolding new_server
new_server-calm d port = made-calm d port d.ssl

-- What a call of `ForPort` without an error leaves.
abbrev pub HasServer : ServerDefaults → Servers → String → Servers → Type 0
HasServer d servers port servers' =
    (s : HttpServer) × (lookup port servers' ≡ some s)
    × ((lookup port servers ≡ some s) ⊎ ((lookup port servers ≡ none) × IsFresh s))
    × (for_port d servers' port ≡ (servers', none))
    × ((j : String) → (port =s= j) ≡ false → lookup j servers' ≡ lookup j servers)

module _ (d : ServerDefaults) (servers : Servers) (port : String) where
  asked_again :
      (s : HttpServer) → lookup port servers ≡ some s → for_port d servers port ≡ (servers, none)
  unfolding for_port use_server
  asked_again s there = ap (use_server d servers port) there

add-HasServer :
    (d : ServerDefaults) (servers : Servers) (port : String) (o : Outcome HttpServer)
    → lookup port servers ≡ none
    → ((s : HttpServer) → o ≡ ok s → IsFresh s)
    → o ≢ panic
    → (add_server servers port o).1 ≡ none
    → HasServer d servers port (add_server servers port o).0
unfolding add_server
add-HasServer d servers port (ok s) new fresh calm fine =
    let here = lookup-insert port port s servers in
    let at : lookup port (insert port s servers) ≡ some s = ground (arith, =s=_refl port) in
    (
      s,
      at,
      inr (new, fresh s refl),
      asked_again d (insert port s servers) port s at,
      λ j other. lookup-insert port j s servers ∙ rw other refl,
    )
add-HasServer d servers port (err x) new fresh calm fine = absurd (cc)
add-HasServer d servers port panic new fresh calm fine = absurd (calm refl)

used-HasServer :
    (d : ServerDefaults) (servers : Servers) (port : String) (o : Option HttpServer)
    → lookup port servers ≡ o
    → new_server d port ≢ panic
    → (use_server d servers port o).1 ≡ none
    → HasServer d servers port (use_server d servers port o).0
unfolding use_server
used-HasServer d servers port none new calm fine =
    add-HasServer d servers port (new_server d port) new (new_server-IsFresh d port) calm fine
used-HasServer d servers port (some s) there calm fine =
    (s, there, inl there, asked_again d servers port s there, λ j other. refl)

-- After `ForPort` without an error the port has a server, which a second call leaves alone; the other
-- ports keep theirs, and so does the port if it had one.
pub for_port_cases :
    (d : ServerDefaults) (servers : Servers) (port : String)
    → (for_port d servers port).1 ≡ none
    → HasServer d servers port (for_port d servers port).0
unfolding for_port
for_port_cases d servers port fine =
    used-HasServer d servers port (lookup port servers) refl (new_server-calm d port) fine
