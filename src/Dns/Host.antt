-- ===== src/Dns/Host.antt =====
-- What scripts/pipeline/dns-reconcile.py acts on: the provider's interface, the checkpoint file with
-- its lock, and the resolvers. They are a parameter, and each call may change the world.
pub use iac_modules.Common.Steps.{Step, ◌>>=◌, ◌>>◌, lift, return, check}
use iac_modules.Common.{Bool, true, false, ◌&&◌, Option, ltb, length, leb}
use iac_modules.Json.{
  pos, negsuc, Value, int, bool, get, get_or, at, eq, is_true, is_mapping, is_list, or_empty,
  members,
}

-- The calls of the provider's interface.
pub data Request : Type 0 where
  read_zone : Value → Request
  list_records : Value → Value → Request
  create_record : Value → Value → Request
  update_record : Value → Value → Value → Request
  delete_record : Value → Value → Request

pub record Host (W : Type 0) : Type 0 where
  -- The JSON of the response, or the exception of a failed call.
  pub send : Request → Step W Value
  -- The checkpoint, if the file exists.
  pub load : Step W (Option Value)
  pub save : Value → Step W (Unit {0})
  -- The exclusive lock beside the checkpoint.
  pub lock : Step W (Unit {0})
  -- Both public resolvers answer with the address before the time is over.
  pub converges : Value → Value → Step W Bool

module _ {W : Type 0} (host : Host W) where
  -- `Cloudflare.request`
  unfoldable pub request : Request → Step W Value
  request r = do
    response ← host.send r
    check (is_mapping response && is_true (get "success" response)) "Cloudflare request rejected"
    return response

  abbrev result_of : Value → Step W Value
  result_of response = lift (at "result" response)

  unfoldable pub zone : Value → Step W Value
  zone zone_id = do response ← request (read_zone zone_id); result_of response

  -- `v <= 1`
  abbrev at_most_one : Value → Bool
  at_most_one (int (pos n)) = leb n 1
  at_most_one (int (negsuc n)) = true
  at_most_one (bool b) = true
  at_most_one v = false

  abbrev count_of : Value → Value
  count_of records = int (pos (length (members records)))

  unfoldable pub records : Value → Value → Step W Value
  records zone_id name = do
    response ← request (list_records zone_id name)
    let found = get "result" response
    let info = or_empty (get "result_info" response)
    check
        (is_list found
          && (ltb (length (members found)) 100
              && (at_most_one (get_or "total_pages" (int (pos 1)) info)
                  && eq (get_or "total_count" (count_of found) info) (count_of found))))
        "Incomplete DNS result set"
    return found

  unfoldable pub create : Value → Value → Step W Value
  create zone_id entry = do response ← request (create_record zone_id entry); result_of response

  unfoldable pub update : Value → Value → Value → Step W Value
  update zone_id record_id entry = do
    response ← request (update_record zone_id record_id entry)
    result_of response

  unfoldable pub delete : Value → Value → Step W (Unit {0})
  delete zone_id record_id = do
    response ← request (delete_record zone_id record_id)
    result ← result_of response
    check (is_mapping result && eq (get "id" result) record_id) "Delete identity mismatch"
