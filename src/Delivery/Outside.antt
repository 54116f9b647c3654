-- ===== src/Delivery/Outside.antt =====
-- What the worker of internal/delivery/worker.go calls and does not contain: the clocks, the rate
-- limiter (golang.org/x/time/rate), the random jitter, the MAX client and the Telegram client.
use maxbridge.Prelude.{ℕ, ◌⊎◌, Bool, Option, List, ℤ}
use maxbridge.Text.{Text}
use maxbridge.Storage.Tables.{Time}
use maxbridge.Http.{Reader}
use maxbridge.MaxApi.{SendError, Attachment}
use maxbridge.MaxApi.Client.{Upload}

-- `W` is all that these calls may change. A context that is cancelled shows in their errors.
pub record Outside (W : Type 0) : Type 0 where
  pub clock : W → Time
  pub database_clock : W → Time
  -- 0.8 + rand.Float64()*0.4, in units of 2^-53.
  pub jitter : W → ℕ × W
  -- w.limiter.Wait(ctx)
  pub wait : W → Option Text × W
  -- The `select` on ctx.Done() and time.After.
  pub sleep : ℕ → W → Option Text × W
  pub send : ℤ → Text → List Attachment → W → Option SendError × W
  pub upload : Text → Text → Reader → W → Upload × W
  -- Whether `tgMedia` is set, and its DownloadFile: the content and a file name.
  pub has_media_client : Bool
  pub download : Text → W → (Text ⊎ (Reader × Text)) × W
