-- ===== src/Config/Tests.antt =====
-- config/config.go: the lists and the file on concrete inputs.
use caochuan.Base.{ℕ, String, refl, true, none, [], ◌∷◌, String-discrete, differ}
use caochuan.Config.Fixtures.{some_netip}
use caochuan.Config.Acl.{Acl}
use caochuan.Config.File.{no_fault, load_server}
use caochuan.Config.File.Loading.{IsLoaded, load_server-IsLoaded}

abbrev compiled_list : Acl some_netip
compiled_list = record { prefixes = "10.0.0.0/8" ∷ []; addrs = [] }

abbrev draw : ℕ → String
draw i = "0123456789abcdef"

load_server-IsLoaded_example :
    IsLoaded (load_server true no_fault no_fault draw (record { file = none; tmp = none }))
unfolding String-discrete
load_server-IsLoaded_example =
    load_server-IsLoaded true no_fault no_fault draw (record { file = none; tmp = none })
      (λ i. (differ "0123456789abcdef" "" refl, differ "01234567" "" refl))
