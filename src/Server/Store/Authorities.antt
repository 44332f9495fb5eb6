-- ===== src/Server/Store/Authorities.antt =====
-- apps/server/src/session-database.ts: what the Server knows of each Machine.
use odyshell.Base.{
  Bool, ◌&&◌, Option, List, ◌∷◌, String, ◌==◌, if◌then◌else◌, is_some, find, select, update, any,
  returning_first, order_by,
}
use odyshell.Base.{text_before}
use odyshell.Server.Store.{MachineAuthority, Store}

abbrev pub authority_key : String → String → MachineAuthority → Bool
authority_key organization_id machine_id a =
    a.organization_id == organization_id && a.machine_id == machine_id

unfoldable pub machine_authority : Store → String → String → Option MachineAuthority
machine_authority st organization_id machine_id =
    find (authority_key organization_id machine_id) st.authorities

unfoldable pub list_machine_authorities : Store → String → List MachineAuthority
list_machine_authorities st organization_id =
    order_by (λ a b. text_before a.machine_id b.machine_id)
      (select (λ a. a.organization_id == organization_id) st.authorities)

-- The insert with its `on conflict … do update`.
unfoldable pub put_machine_authority : MachineAuthority → Store → Store
put_machine_authority authority st =
    let key = authority_key authority.organization_id authority.machine_id in
    record st {
      authorities =
          if any key st.authorities
          then update key
              (λ a. record a {
                client_profile_id = authority.client_profile_id;
                operating_system_user = authority.operating_system_user;
                online = authority.online;
                local_policy = authority.local_policy;
              })
              st.authorities
          else authority ∷ st.authorities;
    }

unfoldable pub set_machine_online : String → String → Bool → Store → Store × Bool
set_machine_online organization_id machine_id online st =
    let key = authority_key organization_id machine_id in
    let go_online : MachineAuthority → MachineAuthority = λ a. record a { online = online } in
    (
      record st { authorities = update key go_online st.authorities },
      is_some (returning_first key go_online st.authorities),
    )
