-- ===== src/Connections/Status/Reported.antt =====
-- Which hosts are reported.
use playbook_dispatcher.Common.{◌+◌, ◌≤◌, String, List}
use playbook_dispatcher.Connections.Inventory.{HostDetails}
use playbook_dispatcher.Connections.Status.Grouping.{occurrences, reported}
use playbook_dispatcher.Connections.Status.{
  RecipientWithConnectionInfo, sort_hosts_by_recipient, ids_of,
}

-- What is reported of the hosts that were found: none more often than it was found, and those with a
-- connection of their own or none as often.
unfoldable pub IsReported : List HostDetails → List RecipientWithConnectionInfo → Type 0
unfolding sort_hosts_by_recipient
IsReported details infos =
    (x : String)
    → (occurrences x (reported infos) ≤ occurrences x (ids_of details))
      × (occurrences x (ids_of (sort_hosts_by_recipient details).direct)
            + occurrences x (ids_of (sort_hosts_by_recipient details).no_rhc)
          ≤ occurrences x (reported infos))
