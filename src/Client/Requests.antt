-- ===== src/Client/Requests.antt =====
-- The requests of src/client/loadgen_worker.c: the table of log templates and what is sent for it.
-- libcurl and rand are arguments: what curl_easy_perform returns, and what rand does.
pub mod Fit
use Prim.Native.String.{String}
use log_aggregator_c.Base.{
  ℕ, suc, ◌+◌, ◌%◌, Bool, Option, none, some, List, [], ◌∷◌, ◌++◌, ℤ, pos, negsuc, ◌>>=◌, leb,
  if◌then◌else◌, length, load,
}
use log_aggregator_c.CString.{codes, digits_of}

-- log_template
pub record LogTemplate : Type 0 where
  pub level : List ℕ
  pub message : List ℕ

abbrev template : String → String → LogTemplate
template level message = record { level = codes level; message = codes message }

unfoldable pub logs_table : List LogTemplate
logs_table =
    template "INFO" "Log system online"
    ∷ template "WARN" "CPU usage high"
    ∷ template "ERROR" "Database connection failed"
    ∷ template "DEBUG" "Cache updated successfully"
    ∷ template "INFO" "User login successful"
    ∷ template "WARN" "Memory usage approaching limit"
    ∷ template "ERROR" "Failed to write log"
    ∷ template "DEBUG" "Worker thread started"
    ∷ template "INFO" "Scheduled job executed"
    ∷ template "WARN" "Disk space low"
    ∷ template "ERROR" "Timeout occurred"
    ∷ template "DEBUG" "Cache cleared"
    ∷ template "INFO" "New connection established"
    ∷ template "WARN" "High latency detected"
    ∷ template "ERROR" "Failed to send email"
    ∷ template "DEBUG" "Session refreshed"
    ∷ template "INFO" "Configuration loaded"
    ∷ template "WARN" "Slow query detected"
    ∷ template "ERROR" "Data parsing failed"
    ∷ template "DEBUG" "Log queue processed"
    ∷ template "INFO" "Health check passed"
    ∷ template "WARN" "Cache miss rate high"
    ∷ template "ERROR" "Permission denied"
    ∷ template "DEBUG" "Thread pool expanded"
    ∷ template "INFO" "Backup completed"
    ∷ template "WARN" "API response slow"
    ∷ template "ERROR" "Connection reset"
    ∷ template "DEBUG" "Metrics recorded"
    ∷ template "INFO" "user logout successful"
    ∷ template "WARN" "Retry limit reached"
    ∷ template "ERROR" "Disk write failed"
    ∷ template "DEBUG" "Worker idle"
    ∷ template "INFO" "New user registered"
    ∷ template "WARN" "High load on server"
    ∷ template "ERROR" "API key invalid"
    ∷ template "DEBUG" "Cache hit"
    ∷ template "INFO" "Job scheduled"
    ∷ template "WARN" "Request timeout"
    ∷ template "ERROR" "File not found"
    ∷ template "DEBUG" "Session cleaned"
    ∷ template "INFO" "Service started"
    ∷ template "WARN" "CPU throttling"
    ∷ template "ERROR" "Out of memory"
    ∷ template "DEBUG" "Health check initiated"
    ∷ template "INFO" "Log rotation completed"
    ∷ template "WARN" "SSL handshake failed"
    ∷ template "ERROR" "Unable to connect to database"
    ∷ template "DEBUG" "Queue length monitored"
    ∷ template "INFO" "Heartbeat sent"
    ∷ template "WARN" "Cache stale data detected"
    ∷ []

-- sizeof(logs_table) / sizeof(logs_table[0])
unfoldable pub logs_table_size : ℕ
unfolding logs_table
logs_table_size = length logs_table

pub data Request : Type 0 where
  post : (url body : List ℕ) → Request
  get : (url : List ℕ) → Request

-- "%d" of a number that is not negative
abbrev pub decimal : ℕ → List ℕ
decimal n = digits_of (suc n) n

-- The texts that the two calls of snprintf print.
unfoldable pub payload : LogTemplate → List ℕ
payload t =
    codes "{\"level\":\"" ++ (t.level ++ (codes "\",\"message\":\"" ++ (t.message ++ codes "\"}")))

unfoldable pub get_url : (url level : List ℕ) → (limit page : ℕ) → List ℕ
get_url url level limit page =
    url
    ++ (codes "?limit="
        ++ (decimal limit ++ (codes "&level=" ++ (level ++ (codes "&page=" ++ decimal page)))))

-- What follows snprintf into 512 bytes: nothing is sent where the text was cut off. `ok` is whether
-- curl_easy_perform returns CURLE_OK.
abbrev pub perform : (text : List ℕ) → Request → (ok : Bool) → ℤ × Option Request
perform text request ok =
    if leb 512 (length text)
    then (negsuc 0, none)
    else (if ok then pos 0 else negsuc 0, some request)

-- The result, and the request that was sent.
unfoldable pub send_post_request :
    (url : List ℕ) → (rand : ℕ) → (ok : Bool) → Option (ℤ × Option Request)
send_post_request url rand ok = do
  t ← load logs_table (pos (rand % logs_table_size))
  some (perform (payload t) (post url (payload t)) ok)

unfoldable pub send_get_request :
    (url : List ℕ)
    → (rand_index rand_limit rand_page : ℕ) → (ok : Bool) → Option (ℤ × Option Request)
send_get_request url rand_index rand_limit rand_page ok = do
  t ← load logs_table (pos (rand_index % logs_table_size))
  let text = get_url url t.level (1 + rand_limit % 100) (1 + rand_page % 10)
  some (perform text (get text) ok)
