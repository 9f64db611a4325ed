-- ===== src/Toasts.antt =====
-- layout/AppToaster.tsx: what `useToast` gives to the pages, which list what they told, newest first.
use k8s_sentinel.Base.{Text}

pub data Toast : Type 0 where
  success failure : Text → Toast
